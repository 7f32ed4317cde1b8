-- ===== src/Oram/Fetch.antt =====
-- What `ORAM::FetchPath` of src/ORAM.cpp sends.
use mathlib.Core.List.{append-nil, append_assoc}
use bomap.Base.{
  ℕ, zero, suc, ◌+◌, ◌-◌, ◌^◌, ◌<◌, ◌≤◌, ◌≡◌, refl, sym, ap, ◌∙◌, false, ◌||◌, ◌==◌, Bool-cases,
  inl, inr, if◌then◌else◌, List, [], ◌∷◌, ◌++◌, Option, none, some, ◌>>=◌, arith,
}
use bomap.TreePath.{node_at}
use bomap.TreePath.Levels.{node_at_bounds}
use bomap.Oram.{contains, Oram, start, fetch_loop, fetch_path}

-- the buckets on the path to a leaf, from level `d` on
unfoldable pub path_from : ℕ → ℕ → ℕ → ℕ → List ℕ
path_from zero d depth leaf = []
path_from (suc rounds) d depth leaf = node_at depth leaf d ∷ path_from rounds (suc d) depth leaf

-- the buckets' ciphertexts, one behind the other, if all are there
unfoldable pub contents : (ℕ → Option (List ℕ)) → List ℕ → Option (List ℕ)
contents query [] = some []
contents query (n ∷ ns) = do s ← query n; rest ← contents query ns; some (s ++ rest)

-- the buckets that were not sent yet
unfoldable pub fresh : List ℕ → List ℕ → List ℕ
fresh view [] = []
fresh view (n ∷ ns) = if contains view n then fresh view ns else n ∷ fresh view ns

pub fresh-nil : (ns : List ℕ) → fresh [] ns ≡ ns
unfolding fresh
fresh-nil [] = refl
fresh-nil (n ∷ ns) = ap (◌∷◌ n) (fresh-nil ns)

abbrev pub AllBelow : ℕ → List ℕ → Type 0
AllBelow m [] = Unit
AllBelow m (x ∷ v) = (x < m) × AllBelow m v

AllBelow-append : (m n : ℕ) (v : List ℕ) → AllBelow m v → n < m → AllBelow m (v ++ n ∷ [])
AllBelow-append m n [] a h = (h, tt)
AllBelow-append m n (x ∷ v) a h = (a.0, AllBelow-append m n v a.1 h)

AllBelow-mono : (m n : ℕ) (v : List ℕ) → m ≤ n → AllBelow m v → AllBelow n v
AllBelow-mono m n [] h a = tt
AllBelow-mono m n (x ∷ v) h a = (omega arith, AllBelow-mono m n v h a.1)

contains-AllBelow : (m n : ℕ) (v : List ℕ) → AllBelow m v → m ≤ n → contains v n ≡ false
contains-AllBelow m n [] a h = refl
contains-AllBelow m n (x ∷ v) a h = ground (arith, contains-AllBelow m n v a.1)

contains-append_below :
    (m n : ℕ) (u v : List ℕ) → AllBelow m v → m ≤ n → contains (u ++ v) n ≡ contains u n
contains-append_below m n [] v a h = contains-AllBelow m n v a h
contains-append_below m n (x ∷ u) v a h = ap (λ b. x == n || b) (contains-append_below m n u v a h)

abbrev pub replied : List ℕ → List ℕ → Option (List ℕ × List ℕ)
replied view result = some (view, result)

-- a reply as far as it has come, with what is still to be sent
abbrev pub more : (ℕ → Option (List ℕ)) → List ℕ → List ℕ → List ℕ → Option (List ℕ × List ℕ)
more query view result ns = contents query ns >>= λ s. replied (view ++ ns) (result ++ s)

more_lem :
    (query : ℕ → Option (List ℕ)) (view result : List ℕ) (n : ℕ) (ns : List ℕ)
    → (query n >>= λ s. more query (view ++ n ∷ []) (result ++ s) ns)
      ≡ more query view result (n ∷ ns)
unfolding contents
more_lem query view result n ns = with_first (query n) (contents query ns)
  where
    with_first :
        (first rest : Option (List ℕ))
        → (first >>= λ s. rest >>= λ t. replied ((view ++ n ∷ []) ++ ns) ((result ++ s) ++ t)) ≡ (
            (first >>= λ s. rest >>= λ t. some (s ++ t)) >>= λ s.
            replied (view ++ n ∷ ns) (result ++ s))
    with_first none rest = refl
    with_first (some s) none = refl
    with_first (some s) (some t) =
        λ i. some (append_assoc view (n ∷ []) ns i, append_assoc result s t i)

module _ (depth leaf : ℕ) (inside : leaf < 2 ^ depth) where
  -- What was sent of the path lies above the level `d`: so the bucket on the level was sent only if an
  -- earlier request has sent it.
  pub sent_before :
      (d : ℕ) (old view : List ℕ)
      → d ≤ depth
      → AllBelow (2 ^ d - 1) view
      → contains (old ++ view) (node_at depth leaf d) ≡ contains old (node_at depth leaf d)
  sent_before d old view h a =
      let (low, _, _) = node_at_bounds depth leaf d inside h in
      contains-append_below (2 ^ d - 1) (node_at depth leaf d) old view a low

  pub AllBelow-next :
      (d : ℕ) (view : List ℕ)
      → d ≤ depth
      → AllBelow (2 ^ d - 1) view
      → AllBelow (2 ^ suc d - 1) (view ++ node_at depth leaf d ∷ [])
  AllBelow-next d view h a =
      let node = node_at depth leaf d in
      let (low, high, _) = node_at_bounds depth leaf d inside h in
      let next : d + 1 ≡ suc d = omega arith in
      let high' : node < 2 ^ suc d - 1 = rw (← next) high in
      AllBelow-append _ node view (AllBelow-mono (2 ^ d - 1) _ view (omega arith) a) high'

  pub AllBelow-later :
      (d : ℕ) (view : List ℕ)
      → d ≤ depth
      → AllBelow (2 ^ d - 1) view
      → AllBelow (2 ^ suc d - 1) view
  AllBelow-later d view h a =
      let (low, high, _) = node_at_bounds depth leaf d inside h in
      let next : d + 1 ≡ suc d = omega arith in
      let high' : node_at depth leaf d < 2 ^ suc d - 1 = rw (← next) high in
      AllBelow-mono (2 ^ d - 1) _ view (omega arith) a

  -- the loop sends the buckets of the path that were not sent before
  pub fetch_loop_lem :
      (query : ℕ → Option (List ℕ)) (rounds d : ℕ) (old view result : List ℕ)
      → d + rounds ≡ suc depth
      → AllBelow (2 ^ d - 1) view
      → fetch_loop query rounds d depth leaf (old ++ view) result
        ≡ more query (old ++ view) result (fresh old (path_from rounds d depth leaf))
  unfolding fetch_loop path_from contents fresh
  fetch_loop_lem query zero d old view result e a =
      λ i. some (sym (append-nil (old ++ view)) i, sym (append-nil result) i)
  fetch_loop_lem query (suc rounds) d old view result e a =
      let node = node_at depth leaf d in
      let same = sent_before d old view (omega arith) a in
      elim (Bool-cases (contains old node)) [
        | inl sent ↦
            rw (same, sent)
              (fetch_loop_lem query rounds (suc d) old view result (omega arith)
                (AllBelow-later d view (omega arith) a))
        | inr new ↦
            let rest = fresh old (path_from rounds (suc d) depth leaf) in
            rw (same, new)
              (ap (λ k. query node >>= k)
                  (λ i s.
                    (ap (λ v. fetch_loop query rounds (suc d) depth leaf v (result ++ s))
                          (append_assoc old view (node ∷ []))
                        ∙ fetch_loop_lem query rounds (suc d) old (view ++ node ∷ []) (result ++ s)
                            (omega arith) (AllBelow-next d view (omega arith) a)
                        ∙ ap (λ v. more query v (result ++ s) rest)
                            (sym (append_assoc old view (node ∷ []))))
                      i)
                ∙ more_lem query (old ++ view) result node rest)
      ]

-- the result of the first request after `start`
abbrev answered : Oram → List ℕ → List ℕ → Option (Oram × List ℕ)
answered o view s = some (record o { read_cnt = 1; read_view = view }, s)

-- After `start`, the reply for a path to a leaf of the tree is the ciphertexts of all its buckets,
-- from the root to the leaf, each once, and these are the buckets that are marked as sent. The request
-- faults exactly if one of them is not in the database.
pub fetch_path_lem :
    (query : ℕ → Option (List ℕ)) (o : Oram) (leaf : ℕ)
    → leaf < 2 ^ o.depth
    → let whole = path_from (suc o.depth) 0 o.depth leaf in
      fetch_path query (start o) leaf
      ≡ (contents query whole >>= λ s. some (record o { read_cnt = 1; read_view = whole }, s))
unfolding fetch_path start
fetch_path_lem query o leaf h =
    let whole = path_from (suc o.depth) 0 o.depth leaf in
    rw
      (
        fetch_loop_lem o.depth leaf h query (suc o.depth) 0 [] [] [] (omega arith) tt,
        fresh-nil whole,
      )
      (with_reply (contents query whole))
  where
    with_reply :
        (m : Option (List ℕ))
        → ((m >>= replied (path_from (suc o.depth) 0 o.depth leaf)) >>= λ r. answered o r.0 r.1)
          ≡ (m >>= answered o (path_from (suc o.depth) 0 o.depth leaf))
    with_reply none = refl
    with_reply (some s) = refl
