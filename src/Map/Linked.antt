-- ===== src/Map/Linked.antt =====
-- The loops of `client::finish` in src/client.cpp over a cache and over the children of a node: which
-- children have the positions of their nodes after them.
use mathlib.Core.Path.{subst}
use bomap.Base.{
  ℕ, zero, suc, ◌==◌, ◌≤◌, ◌≡◌, refl, sym, Bool-cases, inl, inr, true, List, [], ◌∷◌, length,
  Option, none, some, ℤ, arith,
}
use bomap.Bid.{Bid}
use bomap.Node.{KpPair}
use bomap.Inner.{Inner}
use bomap.Mid1.{MidNode1}
use bomap.Slots.Holds.{Yields}
use bomap.Client.{NodeClass, Tree}
use bomap.Map.{World}
use bomap.Map.Finish.{is_marked, position, relink, link, link_inner, refresh_node, refresh}

-- a child has the position that `below` gives for its key, if it gives one
abbrev pub Placed : (Bid → Option ℤ) → KpPair → Type 0
Placed below c = (p : ℤ) → below c.key ≡ some p → c.pos ≡ p

-- the first children of an array
abbrev pub AllPlaced : (Bid → Option ℤ) → ℕ → List KpPair → Type 0
AllPlaced below zero a = Unit
AllPlaced below (suc n) [] = Unit
AllPlaced below (suc n) (c ∷ a) = Placed below c × AllPlaced below n a

abbrev pub IsLinked : (Bid → Option ℤ) → Inner → Type 0
IsLinked below m = AllPlaced below m.p2 m.child_map

-- every node of a cache
abbrev pub AllNodes : {N : Type 0} → (N → Type 0) → List (Bid × N) → Type 0
AllNodes P [] = Unit
AllNodes P ((k, n) ∷ c) = P n × AllNodes P c

-- the count of a node is inside its array
abbrev pub Fits : Inner → Type 0
Fits m = m.p2 ≤ length m.child_map

-- where the nodes of the first of these levels are, or those below them if there is none
abbrev pub top : (Bid → Option ℤ) → List (Tree MidNode1) → Bid → Option ℤ
top below [] = below
top below (t ∷ ts) = position (λ m. m.pos) t.cache

abbrev pub AllFit : List (Tree MidNode1) → Type 0
AllFit [] = Unit
AllFit (t ∷ ts) = AllNodes Fits t.cache × AllFit ts

abbrev pub AllLinked : (Bid → Option ℤ) → List (Tree MidNode1) → Type 0
AllLinked below [] = Unit
AllLinked below (t ∷ ts) = AllNodes (IsLinked (top below ts)) t.cache × AllLinked below ts

relink-none : (below : Bid → Option ℤ) (c : KpPair) → below c.key ≡ none → relink below c ≡ c
unfolding relink
relink-none below c e = rw (relink, e) refl

relink-some :
    (below : Bid → Option ℤ) (c : KpPair) (p : ℤ)
    → below c.key ≡ some p
    → relink below c ≡ record c { pos = p }
unfolding relink
relink-some below c p e = rw (relink, e) refl

relink-Placed :
    (below : Bid → Option ℤ) (c : KpPair) (o : Option ℤ)
    → below c.key ≡ o
    → Placed below (relink below c)
relink-Placed below c none e =
    subst (Placed below) (sym (relink-none below c e)) (λ p h. absurd (no_place p h))
  where
    no_place : (p : ℤ) → below c.key ≡ some p → ⊥
    no_place p h = cc
relink-Placed below c (some q) e = subst (Placed below) (sym (relink-some below c q e)) (λ p h. cc)

pub link-AllPlaced :
    (below : Bid → Option ℤ) (n : ℕ) (a : List KpPair)
    → n ≤ length a
    → Yields (AllPlaced below n) (link n below a)
unfolding link
link-AllPlaced below zero a h = (a, refl, tt)
link-AllPlaced below (suc n) [] h = absurd (omega arith)
link-AllPlaced below (suc n) (c ∷ a) h =
    let (b, e, p) = link-AllPlaced below n a (omega arith) in
    (relink below c ∷ b, rw e refl, (relink-Placed below c (below c.key) refl, p))

pub link_inner-IsLinked :
    (below : Bid → Option ℤ) (m : Inner) → Fits m → Yields (IsLinked below) (link_inner below m)
unfolding link_inner
link_inner-IsLinked below m h =
    let (b, e, p) = link-AllPlaced below m.p2 m.child_map h in
    (record m { child_map = b }, rw e refl, p)

module _ (w : World) where
  module _ {N : Type 0} (cls : NodeClass N) (size : ℕ) (links : N → Option N) (marked : List Bid)
      (Q P : N → Type 0) (moves : (p : ℤ) (n : N) → Q n → Q (cls.set_pos p n))
      (linked : (n : N) → Q n → Yields P (links n))
      (passed : (n : N) → (cls.count n == 0) ≡ true → P n) where
    refresh_node-linked :
        (drawn : ℕ) (n : N)
        → Q n
        → Yields (λ r. P r.1) (refresh_node w cls size links marked drawn n)
    unfolding refresh_node
    refresh_node-linked drawn n q = elim (Bool-cases (cls.count n == 0)) [
      | inl empty ↦ ((drawn, n), rw empty refl, passed n empty)
      | inr filled ↦ elim (Bool-cases (is_marked marked (cls.max_value n))) [
        | inl moved ↦
            let (m, e, p) =
              linked (cls.set_pos (w.draw size drawn) n) (moves (w.draw size drawn) n q) in
            ((suc drawn, m), rw (filled, moved, e) refl, p)
        | inr stays ↦ let (m, e, p) = linked n q in ((drawn, m), rw (filled, stays, e) refl, p)
      ]
    ]

    pub refresh-AllNodes :
        (drawn : ℕ) (c : List (Bid × N))
        → AllNodes Q c
        → Yields (λ r. AllNodes P r.1) (refresh w cls size links marked drawn c)
    unfolding refresh
    refresh-AllNodes drawn [] q = ((drawn, []), refl, tt)
    refresh-AllNodes drawn ((k, n) ∷ c) (q, qs) =
        let ((d, m), e, p) = refresh_node-linked drawn n q in
        let ((d', c'), e', ps) = refresh-AllNodes d c qs in
        ((d', (k, m) ∷ c'), rw (e, e') refl, (p, ps))

pub none_placed :
    (below : Bid → Option ℤ) (n : ℕ) (a : List KpPair) → (n == 0) ≡ true → AllPlaced below n a
none_placed below zero a e = tt
none_placed below (suc n) a e = absurd (ground arith)

pub all_nodes : {N : Type 0} (c : List (Bid × N)) → AllNodes (λ n. Unit {0}) c
all_nodes [] = tt
all_nodes ((k, n) ∷ c) = (tt, all_nodes c)
