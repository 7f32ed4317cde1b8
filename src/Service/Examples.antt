-- ===== src/Service/Examples.antt =====
-- The service of test_server.cpp with a driver whose collections are functions from the numbers of the
-- buckets.
use bomap.Base.{
  ℕ, ◌==◌, ◌≡◌, ◌<◌, refl, ◌∙◌, arith, Bool-cases, inl, inr, true, false, if◌then◌else◌, List, [],
  ◌∷◌, length, ltb, ◌+◌, ◌-◌, ◌^◌, ◌%◌, Option, none, some, ◌>>=◌,
}
use bomap.Slots.Holds.{Yields}
use bomap.TreePath.{depth_of, bucket_count}
use bomap.Oram.{Oram, new_oram}
use bomap.Oram.Fetch.{path_from}
use bomap.Connector.{Connector, Driver, Documented, Misses, AreNew, document}
use bomap.Service.{Service, create, read_bucket, write_bucket}
use bomap.Service.Serves.{written, stored_in}
use bomap.Service.Replies.{write_bucket-read_bucket}
use bomap.Service.Fills.{HasFirst, create-HasFirst}

abbrev Table : Type 0
Table = ℕ → Option (List ℕ)

abbrev insert_into : Table → ℕ → List ℕ → Option Table
insert_into c p s = elim (c p) [ none ↦ some (λ q. if p == q then some s else c q) | some _ ↦ none ]

abbrev insert_all : Table → List (ℕ × List ℕ) → Option Table
insert_all c [] = some c
insert_all c ((p, s) ∷ docs) = insert_into c p s >>= λ c'. insert_all c' docs

abbrev update_in : Table → ℕ → List ℕ → Table
update_in c p s q = if p == q then elim (c q) [ none ↦ none | some _ ↦ some s ] else c q

abbrev insert_bulk : Table → List (ℕ × List ℕ) → Option Table
insert_bulk c [] = none
insert_bulk c (d ∷ docs) = insert_all c (d ∷ docs)

abbrev driver : Driver Table
driver = record {
  empty = λ q. none;
  find_one = λ c q. c q;
  insert_one = insert_into;
  update_one = update_in;
  bulk_write = insert_bulk;
}

self_eq : (p : ℕ) → (p == p) ≡ true
self_eq p = ground arith

document-Misses :
    (p : ℕ) (docs : List (ℕ × List ℕ)) (x : Option (List ℕ)) → Misses p docs → document docs p x ≡ x
document-Misses p [] x h = refl
document-Misses p ((q, s) ∷ docs) x (h, hs) =
    let other : (q == p) ≡ false = ground (arith, h) in rw other (document-Misses p docs x hs)

AreNew-insert :
    (c : Table) (p : ℕ) (s : List ℕ) (docs : List (ℕ × List ℕ))
    → Misses p docs
    → AreNew driver c docs
    → AreNew driver (λ q. if p == q then some s else c q) docs
AreNew-insert c p s [] h a = tt
AreNew-insert c p s ((q, x) ∷ docs) (h, hs) (a, m, ms) = (rw h a, m, AreNew-insert c p s docs hs ms)

insert_all-AreNew :
    (c : Table) (docs : List (ℕ × List ℕ))
    → AreNew driver c docs
    → Yields (λ c'. (q : ℕ) → c' q ≡ document docs q (c q)) (insert_all c docs)
insert_all-AreNew c [] a = (c, refl, λ q. refl)
insert_all-AreNew c ((p, s) ∷ docs) (a, m, ms) =
    let (c', e, f) =
      insert_all-AreNew (λ q. if p == q then some s else c q) docs
        (AreNew-insert c p s docs m ms) in
    (
      c',
      rw (a, ◌>>=◌) e,
      λ q. f q ∙ elim (Bool-cases (p == q)) [
        | inl same ↦
            let e' : p ≡ q = ground arith in rw (same, ← e') (document-Misses p docs (some s) m)
        | inr other ↦ rw other refl
      ],
    )

driver-Documented : Documented driver
driver-Documented = record {
  update_same = λ c p x s e. rw (self_eq p, e) refl;
  update_other = λ c p q s e. rw e refl;
  bulk_new = bulk;
  find_empty = λ q. refl;
}
  where
    bulk :
        (c : Table) (docs : List (ℕ × List ℕ))
        → 0 < length docs
        → AreNew driver c docs
        → Yields (λ c'. (q : ℕ) → c' q ≡ document docs q (c q)) (insert_bulk c docs)
    bulk c [] h a = absurd (omega arith)
    bulk c (d ∷ docs) h a = insert_all-AreNew c (d ∷ docs) a

abbrev tree : Oram
tree = record { depth = 1; read_cnt = 2; read_view = 0 ∷ 1 ∷ [] }

abbrev full : Table
full n = some (n ∷ [])

-- three levels of trees, the last one with the `midNode1`s, and the root
abbrev service : Service Table
service = record {
  level = 4;
  is_find = false;
  mc = record { coll = full ∷ full ∷ full ∷ (λ q. none) ∷ [] };
  leaf = tree;
  mid2 = tree;
  mid1 = tree ∷ [];
  leaf_count = 1;
  mid2_count = 0;
  mid1_counts = 2 ∷ [];
}

abbrev numbers : List ℕ
numbers = 0 ∷ 2 ∷ 0 ∷ []

abbrev buckets : List (List ℕ)
buckets = (7 ∷ []) ∷ (8 ∷ []) ∷ (9 ∷ []) ∷ []

write_bucket-read_bucket_example :
    Yields
      (λ r. r.1 ≡ stored_in (written (λ n. n ∷ []) numbers buckets) (path_from 2 0 1 1))
      (write_bucket driver service 2 3 numbers buckets >>= λ s'. read_bucket driver s' 2 1)
write_bucket-read_bucket_example =
    write_bucket-read_bucket driver driver-Documented service 2 2 1 tree (λ n. n ∷ []) numbers
      buckets refl refl refl (omega arith) (full, refl, λ n h. refl)
      (omega arith, (omega arith, (omega arith, tt))) refl

abbrev dummies : List ℕ
dummies = 3 ∷ []

abbrev new_database : Connector Table
new_database = record { coll = (λ q. none) ∷ [] }

last_left : ((2 ^ (depth_of 16 + 1) - 2) % 10000 == 0) ≡ false
unfolding depth_of
last_left = refl

create-HasFirst_example :
    Yields
      (λ (r : Connector Table × Oram).
        (r.1 ≡ new_oram 16) × HasFirst dummies driver 0 r.0 (bucket_count (depth_of 16)))
      (create driver new_database 16 0 dummies false)
create-HasFirst_example =
    create-HasFirst dummies driver driver-Documented 0 new_database 16 ((λ q. none), refl, none_yet)
      last_left
  where
    none_yet : (q : ℕ) → none ≡ (if ltb q 0 then some dummies else none)
    none_yet q = let e : ltb q 0 ≡ false = ground arith in rw e refl
