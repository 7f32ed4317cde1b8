-- ===== src/Map/Init.antt =====
-- `client::init` of src/client.cpp, and the ciphertext of the root in `WriteRootNode`. How the root lies
-- in memory is a parameter.
use bomap.Base.{
  ℕ, zero, suc, ◌-◌, ◌*◌, ◌^◌, ◌==◌, ◌≡◌, refl, sym, ap, Bool, true, false, not, List, [], ◌∷◌,
  Option, none, some, length, ◌>>=◌,
}
use mathlib.Core.Path.{subst}
use bomap.Slots.Holds.{Yields}
use bomap.Node.{root_slots, mid_slots}
use bomap.Root.{RootNode}
use bomap.Cipher.{get_ciphertext_length}
use bomap.Cipher.Aes.{OpenSsl, Documented, iv_size, read, encrypt, decrypt}
use bomap.Cipher.RoundTrip.{read_all, decrypt-encrypt}

-- `sizeof(rootNode)`, `convertNodeToBlock(root)` and `convertBlockToNode(root, buffer)`: a copy from and
-- to memory
pub record Memory : Type 0 where
  pub size : ℕ
  pub to_bytes : RootNode → List ℕ
  pub of_bytes : List ℕ → RootNode

-- `maxsize[i]`
unfoldable pub setup_size : ℕ → ℕ → ℕ
setup_size levels zero = 2 * root_slots * mid_slots ^ (levels - 2)
setup_size levels (suc zero) = 2 * root_slots * mid_slots ^ (levels - 3)
setup_size levels (suc (suc i)) = 2 * root_slots * mid_slots ^ i

-- the loop of the calls of `Setup`: the sizes and the numbers of the trees
unfoldable pub setups : ℕ → ℕ → ℕ → List (ℕ × ℕ)
unfolding setup_size
setups levels zero i = []
setups levels (suc rounds) i = (setup_size levels i, i) ∷ setups levels rounds (suc i)

-- what `init` sends, and the root and `is_access` after it
pub record Started : Type 0 where
  pub trees : List (ℕ × ℕ)
  pub dummy : Option (List ℕ)
  pub root : RootNode
  pub is_access : Bool

bind_inverse :
    {A B : Type 0} (m : Option A) (f : A → Option B) (b : B)
    → (m >>= f) ≡ some b
    → (a : A) × (m ≡ some a) × (f a ≡ some b)
bind_inverse none f b e = absurd (no_result b e)
  where
    no_result : {B : Type 0} (b : B) → none ≡ some b → ⊥
    no_result b e = cc
bind_inverse (some a) f b e = (a, refl, e)

module _ (ssl : OpenSsl) (mem : Memory) (key : List ℕ) where
  -- the ciphertext of the root, in `WriteRootNode` and in `init`
  unfoldable pub seal_root : List ℕ → RootNode → Option (List ℕ)
  unfolding encrypt get_ciphertext_length
  seal_root iv root =
      encrypt ssl iv key (mem.to_bytes root) (get_ciphertext_length mem.size) mem.size

  -- the root of a reply; the copy reads `sizeof(rootNode)` bytes of the buffer
  unfoldable pub open_root : List ℕ → Option RootNode
  unfolding decrypt get_ciphertext_length read
  open_root ciphertext = do
    buffer ← decrypt ssl key ciphertext (get_ciphertext_length mem.size)
    bytes ← read mem.size buffer
    some (mem.of_bytes bytes)

  -- `init()`; `reply` is that of `read_bucket(0, L-1)`
  unfoldable pub init : ℕ → Bool → RootNode → List ℕ → List ℕ → Option Started
  unfolding setups seal_root open_root
  init levels false root iv reply = do
    buffer ← seal_root iv root
    some (record {
      trees = setups levels (levels - 1) 0;
      dummy = some buffer;
      root = root;
      is_access = false;
    })
  init levels true root iv reply = do
    root' ← open_root reply
    some (record {
      trees = setups levels (levels - 1) 0;
      dummy = none;
      root = root';
      is_access = not (root'.p1 == 0);
    })

  -- the calls of a client that finds the root that another one sent
  abbrev pub Restores : RootNode → Started → Started → Type 0
  Restores root first second =
      (second.root ≡ root)
      × (second.is_access ≡ not (root.p1 == 0))
      × (second.dummy ≡ none)
      × (second.trees ≡ first.trees)

  module _ (doc : Documented ssl) (iv : List ℕ) (root : RootNode)
      (sized : length (mem.to_bytes root) ≡ mem.size)
      (copied : mem.of_bytes (mem.to_bytes root) ≡ root) (sixteen : length iv ≡ iv_size) where
    sealed_opens : (c : List ℕ) × (seal_root iv root ≡ some c) × (open_root c ≡ some root)
    unfolding seal_root open_root
    sealed_opens =
        let b = mem.to_bytes root in
        let n = get_ciphertext_length mem.size in
        let opened : (encrypt ssl iv key b n mem.size >>= λ c. decrypt ssl key c n) ≡ some b =
          subst
            (λ k.
              (encrypt ssl iv key b (get_ciphertext_length k) k >>= λ c.
              decrypt ssl key c (get_ciphertext_length k))
              ≡ some b)
            sized (decrypt-encrypt ssl doc key iv b sixteen) in
        let (c, sealed, back) =
          bind_inverse (encrypt ssl iv key b n mem.size) (λ c. decrypt ssl key c n) b opened in
        (c, sealed, rw (back, ◌>>=◌, read_all b mem.size (sym sized)) (ap some copied))

    -- With a cipher that behaves as documented, a root whose bytes are `sizeof(rootNode)` many and copied
    -- back as they were, and an initialisation vector of 16 bytes, the first `init` of a client sends the root as a ciphertext. If a later `init`, with
    -- `is_access` set and any root of its own, gets this ciphertext as the reply, it has the first
    -- client's root, keeps `is_access` exactly if the root has children, sends no root, and asks for
    -- the same trees.
    pub init-Restores :
        (levels : ℕ) (other : RootNode) (iv2 reply : List ℕ)
        → (first : Started) × (c : List ℕ) × (init levels false root iv reply ≡ some first)
          × (first.dummy ≡ some c)
          × Yields (Restores root first) (init levels true other iv2 c)
    unfolding init
    init-Restores levels other iv2 reply =
        let (c, sealed, opened) = sealed_opens in
        let trees = setups levels (levels - 1) 0 in
        (
          record { trees = trees; dummy = some c; root = root; is_access = false },
          c,
          rw (sealed, ◌>>=◌) refl,
          refl,
          (
            record { trees = trees; dummy = none; root = root; is_access = not (root.p1 == 0) },
            rw (opened, ◌>>=◌) refl,
            (refl, refl, refl, refl),
          ),
        )
