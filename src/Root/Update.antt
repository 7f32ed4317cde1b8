-- ===== src/Root/Update.antt =====
-- `Update` of the root of src/node.cpp.
use mathlib.Core.Path.{subst}
use bomap.Base.{◌≡◌, refl, sym, List, ◌∷◌, ◌++◌, length-append, arith, ◌>>=◌}
use bomap.Node.{KpPair, root_slots}
use bomap.Slots.Holds.{Holds, Yields}
use bomap.Inner.Insert.{last_key, read_last-last_key}
use bomap.Inner.Place.{IsFresh}
use bomap.Inner.Update.{Ascends, update_slots-Holds}
use bomap.Mid2.{MidNode2}
use bomap.Root.{RootNode, update_child, update_mid2}

-- An update of the root by a `midNode2` whose new largest key keeps the children in order stays inside
-- the array. The child with the node's former key gets the new one, the others stay, the root knows
-- the key of its last child, and the node remembers the key that the root has for it.
pub update_mid2_correct :
    (r : RootNode) (m : MidNode2) (front : List KpPair) (c : KpPair) (back : List KpPair)
    → Holds root_slots r.child_map r.p1 (front ++ c ∷ back)
    → m.old_max ≡ c.key
    → IsFresh c.key front
    → Ascends (front ++ record c { key = m.max_value } ∷ back)
    → Yields
        (λ o.
          Holds root_slots o.0.child_map o.0.p1 (front ++ record c { key = m.max_value } ∷ back)
          × (o.0.max_value
              ≡ last_key o.0.max_value (front ++ record c { key = m.max_value } ∷ back))
          × (o.1 ≡ record m { old_max = m.max_value }))
        (update_mid2 r m)
unfolding update_mid2 update_child
update_mid2_correct r m front c back h e f s =
    let c' : KpPair = record c { key = m.max_value } in
    let (b, done, held) =
      update_slots-Holds front c back m.old_max m.max_value h (sym e)
        (subst (λ j. IsFresh j front) (sym e) f) s in
    let (x, last, top) =
      read_last-last_key (front ++ c' ∷ back) held
        (omega (arith, length-append front (c' ∷ back))) in
    (
      (record r { child_map = b; max_value = x.key }, record m { old_max = m.max_value }),
      rw (done, ◌>>=◌, last) refl,
      (held, top, refl),
    )
