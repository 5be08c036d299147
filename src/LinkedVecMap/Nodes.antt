-- ===== src/LinkedVecMap/Nodes.antt =====
-- A loose node: attached, freed, or put on the free list.
use grid_server.Base.{
  ℕ, ◌≡◌, refl, sym, ap, ◌∙◌, subst, Option, none, some, List, [], ◌∷◌, ◌++◌, arith, ◌==◌, Returns,
  returns, Returns-map,
}
use grid_server.LinkedVecMap.{Node, LinkedVecMap, load, store, set_next, dealloc, attach}
use grid_server.LinkedVecMap.Members.{
  more_below, more_nonzero, Distinct-insert, mem, Distinct, or_false, mem-append,
  Distinct-append_left, last, mem_apart, ne_of_mem, if_eq, if_ne,
}
use grid_server.LinkedVecMap.Ring.{Item, addrs, next_of, entry_of}
use grid_server.LinkedVecMap.Relink.{Ring-attach}
use grid_server.LinkedVecMap.Links.{SameFields, attach_lem}
use grid_server.LinkedVecMap.Memory.{Layout, Loose, Free-frame, Layout-update, addrs-middle}

module _ {V : Type 0} where
  pub cell_of_entry :
      (o : Option (Node V)) (e : ℕ × V)
      → entry_of o ≡ some e
      → (n : Node V) × (o ≡ some n) × (n.entry ≡ some e)
  cell_of_entry none e h = absurd (cc h)
  cell_of_entry (some n) e h = (n, refl, h)

  -- A loose node is attached as the newest.
  pub attach-Layout :
      (m : LinkedVecMap V) (x : Item V) (xs : List (Item V)) (fs : List ℕ)
      → Loose m.cells m.head m.free m.top x xs fs
      → Returns
          (λ m'. Layout m'.cells m.head m.free m.top (xs ++ x ∷ []) fs × SameFields m m')
          (attach m x.addr)
  attach-Layout m x xs fs h =
      let l = h.rest in
      let nodes = Distinct-append_left (m.head ∷ addrs xs) fs l.distinct in
      let (apart_nodes, apart_free) =
        or_false (mem x.addr (m.head ∷ addrs xs)) (mem x.addr fs)
          (sym (mem-append x.addr (m.head ∷ addrs xs) fs) ∙ h.apart) in
      let (not_head, apart_later) =
        or_false (m.head == x.addr) (mem x.addr (addrs xs)) apart_nodes in
      let head_free = mem_apart (m.head ∷ addrs xs) fs m.head l.distinct (ground arith) in
      let (n, at_x, is_entry) = cell_of_entry (m.cells x.addr) (x.key, x.val) h.entry in
      let middle = addrs-middle m.head xs x [] fs in
      Returns-map
        (attach_lem m x.addr (last m.head (addrs xs)) n.next m.head not_head l.ring.close_next
          (ap next_of at_x) l.ring.close_prev)
        (λ m' (a, same). (
          record {
            ring =
                Ring-attach m.cells m'.cells m.head (last m.head (addrs xs)) xs x nodes apart_nodes
                  l.ring l.ring.close_next h.entry a;
            frees =
                Free-frame m.cells m'.cells m.free fs
                  (λ j k.
                    a.nexts j
                    ∙ if_ne m.head j _ _ (ne_of_mem m.head j fs head_free k)
                    ∙ if_ne x.addr j _ _ (ne_of_mem x.addr j fs apart_free k))
                  l.frees;
            distinct =
                subst Distinct (sym middle)
                  (Distinct-insert (m.head ∷ addrs xs) x.addr fs l.distinct h.apart);
            nonzero =
                ap (mem 0) middle ∙ more_nonzero (m.head ∷ addrs xs) x.addr fs l.nonzero h.nonnull;
            below = λ j k.
                more_below (m.head ∷ addrs xs) x.addr fs m.top l.below h.under j
                  (sym (ap (mem j) middle) ∙ k);
          },
          same,
        ))

  -- A box that is freed.
  pub dealloc-Layout :
      (m : LinkedVecMap V) (x : Item V) (xs : List (Item V)) (fs : List ℕ)
      → Loose m.cells m.head m.free m.top x xs fs
      → Returns
          (λ m'. Layout m'.cells m.head m.free m.top xs fs × SameFields m m')
          (dealloc m x.addr)
  unfolding dealloc load
  dealloc-Layout m x xs fs h =
      let (n, at_x, is_entry) = cell_of_entry (m.cells x.addr) (x.key, x.val) h.entry in
      rw (at_x, dealloc)
        (returns (
          Layout-update m.cells x.addr none m.head m.free m.top xs fs h.apart h.rest,
          record { map = refl; head = refl; free = refl; top = refl },
        ))

  -- A node that is put on the free list: the write of its link, before `free` is set to it.
  pub free-Layout :
      (m : LinkedVecMap V) (x : Item V) (xs : List (Item V)) (fs : List ℕ)
      → Loose m.cells m.head m.free m.top x xs fs
      → Returns
          (λ m'.
            Layout m'.cells m.head x.addr m.top xs (x.addr ∷ fs)
            × (entry_of (m'.cells x.addr) ≡ some (x.key, x.val))
            × SameFields m m')
          (set_next m x.addr m.free)
  unfolding set_next load store
  free-Layout m x xs fs h =
      let l = h.rest in
      let (n, at_x, is_entry) = cell_of_entry (m.cells x.addr) (x.key, x.val) h.entry in
      let u =
        Layout-update m.cells x.addr (some (record n { next = m.free })) m.head m.free m.top xs fs
          h.apart l in
      rw (at_x, set_next)
        (returns (
          record {
            ring = u.ring;
            frees = (refl, (m.free, ap next_of (if_eq x.addr _ _), u.frees));
            distinct = Distinct-insert (m.head ∷ addrs xs) x.addr fs l.distinct h.apart;
            nonzero = more_nonzero (m.head ∷ addrs xs) x.addr fs l.nonzero h.nonnull;
            below = more_below (m.head ∷ addrs xs) x.addr fs m.top l.below h.under;
          },
          ap entry_of (if_eq x.addr _ _) ∙ is_entry,
          record { map = refl; head = refl; free = refl; top = refl },
        ))
