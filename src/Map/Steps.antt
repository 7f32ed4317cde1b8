-- ===== src/Map/Steps.antt =====
-- Steps of the actions that do not fault.
use bomap.Base.{ℕ, ◌≡◌, refl, Option, some, List, get_elem?}
use bomap.Slots.{write}
use bomap.Leaf.{LeafNode}
use bomap.Mid2.{MidNode2}
use bomap.Mid1.{MidNode1}
use bomap.Client.{Tree}
use bomap.Map.{Store, Action, ◌>>=◌, lift, at_leaf, at_mid2, at_mid1, put_mid1, step_mid1}

module _ {A B : Type 0} where
  pub bind-some :
      (m : Action A) (f : A → Action B) (s s' : Store) (a : A)
      → m s ≡ some (a, s')
      → (m >>= f) s ≡ f a s'
  bind-some m f s s' a e = rw (◌>>=◌, e) refl

  -- a fallible computation, and then the rest
  pub lift-bind :
      (o : Option A) (f : A → Action B) (s : Store) (a : A) → o ≡ some a → (lift o >>= f) s ≡ f a s
  lift-bind o f s a e = rw (e, ◌>>=◌) refl

  pub bind-same :
      (m n : Action A) (f : A → Action B) (s s' : Store) → m s ≡ n s' → (m >>= f) s ≡ (n >>= f) s'
  bind-same m n f s s' e = rw (◌>>=◌, e) refl

pub lift-some :
    {A : Type 0} (o : Option A) (a : A) (s : Store) → o ≡ some a → lift o s ≡ some (a, s)
lift-some o a s e = rw e refl

module _ {A : Type 0} (s : Store) (a : A) where
  pub at_leaf-some :
      (f : Tree LeafNode → Option (Tree LeafNode × A)) (t : Tree LeafNode)
      → f s.leaf ≡ some (t, a)
      → at_leaf f s ≡ some (a, record s { leaf = t })
  at_leaf-some f t e = rw (at_leaf, e) refl

  pub at_mid2-some :
      (f : Tree MidNode2 → Option (Tree MidNode2 × A)) (t : Tree MidNode2)
      → f s.mid2 ≡ some (t, a)
      → at_mid2 f s ≡ some (a, record s { mid2 = t })
  at_mid2-some f t e = rw (at_mid2, e) refl

  pub at_mid1-some :
      (f : Tree MidNode1 → Option (Tree MidNode1 × A)) (i : ℕ) (t t' : Tree MidNode1)
      (ts : List (Tree MidNode1))
      → get_elem? s.mid1 i ≡ some t
      → f t ≡ some (t', a)
      → write s.mid1 i t' ≡ some ts
      → at_mid1 i f s ≡ some (a, record s { mid1 = ts })
  at_mid1-some f i t t' ts g e u = rw (at_mid1, g, step_mid1, e, put_mid1, u) refl
