-- ===== src/Root/Insert.antt =====
-- `Insert` of the root of src/node.cpp, with room.
use mathlib.Core.Path.{subst}
use bomap.Base.{
  suc, ◌<◌, ◌≡◌, refl, ap, ◌∙◌, Bool, true, List, ◌∷◌, ◌++◌, some, length, length-append, ltb,
  arith, ◌>>=◌,
}
use bomap.Node.{KpPair, root_slots}
use bomap.Slots.Holds.{Holds, Yields}
use bomap.Inner.Insert.{last_key, read_last-last_key}
use bomap.Inner.Place.{put, length-put, IsFresh, place-Holds}
use bomap.Inner.Update.{Ascends}
use bomap.Inner.Rises.{Ascends-drop, put-Ascends, Ascends-IsFresh}
use bomap.Mid2.{MidNode2}
use bomap.Root.{RootNode, insert_child, insert_mid2, update_mid2}
use bomap.Root.Update.{update_mid2_correct}

-- the pair of a child in its parent
abbrev pub child_of : MidNode2 → KpPair
child_of m = record { key = m.max_value; pos = m.pos }

-- An insertion of a `midNode2` into a root with room, under a key that no child has, is accepted and
-- stays inside the array. The root then has the child before the first whose key is not below its own
-- and knows the key of its last child, and the node remembers the key that the root has for it.
pub insert_mid2_correct :
    (r : RootNode) (m : MidNode2) (cs : List KpPair)
    → Holds root_slots r.child_map r.p1 cs
    → IsFresh m.max_value cs
    → length cs < root_slots
    → Yields
        (λ o.
          (o.0 ≡ true)
          × Holds root_slots o.1.child_map o.1.p1 (put (child_of m) cs)
          × (o.1.max_value ≡ last_key o.1.max_value (put (child_of m) cs))
          × (o.2 ≡ record m { old_max = m.max_value }))
        (insert_mid2 r m)
unfolding insert_mid2 insert_child
insert_mid2_correct r m cs h f room =
    let (b, done, held) = place-Holds (child_of m) cs h f (omega (arith, h.count)) in
    let (x, last, top) =
      read_last-last_key (put (child_of m) cs) held (omega (arith, length-put (child_of m) cs)) in
    let free : ltb r.p1 root_slots ≡ true = ground (arith, h.count) in
    (
      (
        true,
        record r { child_map = b; p1 = suc r.p1; max_value = x.key },
        record m { old_max = m.max_value },
      ),
      rw (free, done, ◌>>=◌, last) refl,
      (refl, held, top, refl),
    )

-- The update by a `midNode2` and then the insertion of a second one behind it.
pub update_mid2-insert_mid2 :
    (r : RootNode) (m new : MidNode2) (front : List KpPair) (c : KpPair) (back : List KpPair)
    → Holds root_slots r.child_map r.p1 (front ++ c ∷ back)
    → m.old_max ≡ c.key
    → IsFresh c.key front
    → length (front ++ c ∷ back) < root_slots
    → let all = front ++ record c { key = m.max_value } ∷ child_of new ∷ back in
      Ascends all
      → (r1 : RootNode) × (r2 : RootNode) × (done : Bool) × (update_mid2 r m
          ≡ some (r1, record m { old_max = m.max_value }))
        × (insert_mid2 r1 new ≡ some (done, r2, record new { old_max = new.max_value }))
        × Holds root_slots r2.child_map r2.p1 all
        × (r2.max_value ≡ last_key r2.max_value all)
update_mid2-insert_mid2 r m new front c back h e f room rises =
    let c1 : KpPair = record c { key = m.max_value } in
    let cn = child_of new in
    let ((r1, m'), up, (held, high, stored)) =
      update_mid2_correct r m front c back h e f (Ascends-drop c1 cn back front rises) in
    let same : length (front ++ c1 ∷ back) ≡ length (front ++ c ∷ back) =
      omega (arith, length-append front (c1 ∷ back), length-append front (c ∷ back)) in
    let ((done, r2, new'), put_in, (_, held2, high2, stored2)) =
      insert_mid2_correct r1 new (front ++ c1 ∷ back) held (Ascends-IsFresh c1 cn back front rises)
        (omega (arith, same)) in
    let all = put-Ascends c1 cn back front rises in
    (
      r1,
      r2,
      done,
      up ∙ ap (λ x. some (r1, x)) stored,
      put_in ∙ ap (λ x. some (done, r2, x)) stored2,
      subst (Holds root_slots r2.child_map r2.p1) all held2,
      subst (λ ds. r2.max_value ≡ last_key r2.max_value ds) all high2,
    )
