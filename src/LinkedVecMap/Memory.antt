-- ===== src/LinkedVecMap/Memory.antt =====
-- The nodes and the free list in memory, and what the operations on nodes make of them.
use grid_server.Base.{
  ℕ, ◌<◌, ◌≡◌, sym, ap, ◌∙◌, subst, true, false, Option, some, List, [], ◌∷◌, ◌++◌, arith, ◌==◌,
  append_assoc, Returns, Returns-map,
}
use grid_server.LinkedVecMap.{Node, LinkedVecMap, detach, update}
use grid_server.LinkedVecMap.Members.{
  or_true, mem-middle, mem-right, mem-left, mem, Distinct, or_false, Distinct-remove,
  Distinct-append_left, last, mem-last, last-append, mem_apart, ne_of_mem, if_ne,
}
use grid_server.LinkedVecMap.Ring.{
  Item, addrs, next_of, prev_of, entry_of, Ring, addrs-append, Chain-split, Chain-frame,
}
use grid_server.LinkedVecMap.Relink.{Ring-detach}
use grid_server.LinkedVecMap.Links.{SameFields, detach_lem}

module _ {V : Type 0} where
  -- The free list from `a`, by `next`.
  abbrev pub Free : (ℕ → Option (Node V)) → ℕ → List ℕ → Type 0
  Free c a [] = a ≡ 0
  Free c a (f ∷ fs) = (a ≡ f) × ((g : ℕ) × (next_of (c f) ≡ some g) × Free c g fs)

  -- The guard, the nodes of the items and the free nodes are different, not null, and allocated.
  pub record Layout (c : ℕ → Option (Node V)) (head free top : ℕ) (xs : List (Item V)) (fs : List ℕ)
      : Type 0 where
    pub ring : Ring c head xs
    pub frees : Free c free fs
    pub distinct : Distinct (head ∷ addrs xs ++ fs)
    pub nonzero : mem 0 (head ∷ addrs xs ++ fs) ≡ false
    pub below : (j : ℕ) → mem j (head ∷ addrs xs ++ fs) ≡ true → j < top

  -- The node of one more item is not linked.
  pub record Loose (c : ℕ → Option (Node V)) (head free top : ℕ) (x : Item V) (xs : List (Item V))
      (fs : List ℕ) : Type 0 where
    pub rest : Layout c head free top xs fs
    pub entry : entry_of (c x.addr) ≡ some (x.key, x.val)
    pub apart : mem x.addr (head ∷ addrs xs ++ fs) ≡ false
    pub nonnull : (x.addr == 0) ≡ false
    pub under : x.addr < top

  pub Free-frame :
      (c c' : ℕ → Option (Node V)) (a : ℕ) (fs : List ℕ)
      → ((j : ℕ) → mem j fs ≡ true → next_of (c' j) ≡ next_of (c j))
      → Free c a fs
      → Free c' a fs
  Free-frame c c' a [] same f = f
  Free-frame c c' a (x ∷ fs) same (e, (g, link, f)) = (
    e,
    (g, same x (ground arith) ∙ link, Free-frame c c' g fs (λ j m. same j (ground (arith, m))) f),
  )

  -- Memory that is the same at all its nodes has the same layout.
  pub Layout-frame :
      (c c' : ℕ → Option (Node V)) (head free top : ℕ) (xs : List (Item V)) (fs : List ℕ)
      → ((j : ℕ) → mem j (head ∷ addrs xs ++ fs) ≡ true → c' j ≡ c j)
      → Layout c head free top xs fs
      → Layout c' head free top xs fs
  Layout-frame c c' head free top xs fs same l =
      let at = λ (j : ℕ) (m : mem j (head ∷ addrs xs) ≡ true).
        same j (mem-left j (head ∷ addrs xs) fs m) in
      let end = at (last head (addrs xs)) (mem-last head (addrs xs)) in
      record {
        ring = record {
          path =
              Chain-frame c c' head xs (Distinct-append_left (head ∷ addrs xs) fs l.distinct)
                (λ j m. let e = at j (ground (arith, m)) in (ap next_of e, ap entry_of e))
                (λ j m k. ap prev_of (at j m)) l.ring.path;
          close_prev = ap prev_of end ∙ l.ring.close_prev;
          close_next = ap next_of (at head (ground arith)) ∙ l.ring.close_next;
        };
        frees =
            Free-frame c c' free fs
              (λ j m. ap next_of (same j (mem-right j (head ∷ addrs xs) fs m))) l.frees;
        distinct = l.distinct;
        nonzero = l.nonzero;
        below = l.below;
      }

  pub Layout-update :
      (c : ℕ → Option (Node V)) (p : ℕ) (o : Option (Node V)) (head free top : ℕ)
      (xs : List (Item V)) (fs : List ℕ)
      → mem p (head ∷ addrs xs ++ fs) ≡ false
      → Layout c head free top xs fs
      → Layout (update c p o) head free top xs fs
  Layout-update c p o head free top xs fs apart l =
      Layout-frame c (update c p o) head free top xs fs
        (λ j m. if_ne p j o (c j) (ne_of_mem p j (head ∷ addrs xs ++ fs) apart m)) l

  pub addrs-middle :
      (head : ℕ) (ys : List (Item V)) (x : Item V) (zs : List (Item V)) (fs : List ℕ)
      → head ∷ addrs (ys ++ x ∷ zs) ++ fs ≡ (head ∷ addrs ys) ++ x.addr ∷ (addrs zs ++ fs)
  addrs-middle head ys x zs fs =
      ap (λ nodes. head ∷ nodes ++ fs) (addrs-append ys (x ∷ zs))
      ∙ ap (◌∷◌ head) (append_assoc (addrs ys) (x.addr ∷ addrs zs) fs)

  pub addrs-around :
      (head : ℕ) (ys zs : List (Item V)) (fs : List ℕ)
      → head ∷ addrs (ys ++ zs) ++ fs ≡ (head ∷ addrs ys) ++ (addrs zs ++ fs)
  addrs-around head ys zs fs =
      ap (λ nodes. head ∷ nodes ++ fs) (addrs-append ys zs)
      ∙ ap (◌∷◌ head) (append_assoc (addrs ys) (addrs zs) fs)

  pub record Neighbours (c : ℕ → Option (Node V)) (head : ℕ) (x : Item V) (xs : List (Item V))
      : Type 0 where
    pub older : ℕ
    pub newer : ℕ
    pub before : ℕ
    pub after : ℕ
    pub is_newer : prev_of (c x.addr) ≡ some newer
    pub is_older : next_of (c x.addr) ≡ some older
    pub has_next : next_of (c newer) ≡ some before
    pub has_prev : prev_of (c older) ≡ some after
    pub member : mem newer (head ∷ addrs xs) ≡ true
    pub entry : entry_of (c x.addr) ≡ some (x.key, x.val)

  pub Ring-Neighbours :
      (c : ℕ → Option (Node V)) (head : ℕ) (ys : List (Item V)) (x : Item V) (zs : List (Item V))
      → Ring c head (ys ++ x ∷ zs)
      → Neighbours c head x (ys ++ x ∷ zs)
  Ring-Neighbours c head ys x [] r =
      let here = (Chain-split c head ys (x ∷ []) r.path).1 in
      let end : last head (addrs (ys ++ x ∷ [])) ≡ x.addr =
        ap (last head) (addrs-append ys (x ∷ [])) ∙ last-append head (addrs ys) (x.addr ∷ []) in
      record {
        older = last head (addrs ys);
        newer = head;
        before = last head (addrs (ys ++ x ∷ []));
        after = x.addr;
        is_newer = ap (λ a. prev_of (c a)) (sym end) ∙ r.close_prev;
        is_older = here.1;
        has_next = r.close_next;
        has_prev = here.0;
        member = ground arith;
        entry = here.2;
      }
  Ring-Neighbours c head ys x (z ∷ zs) r =
      let here = (Chain-split c head ys (x ∷ z ∷ zs) r.path).1 in
      record {
        older = last head (addrs ys);
        newer = z.addr;
        before = x.addr;
        after = x.addr;
        is_newer = here.3.0;
        is_older = here.1;
        has_next = here.3.1;
        has_prev = here.0;
        member =
            ap (mem z.addr) (ap (◌∷◌ head) (addrs-append ys (x ∷ z ∷ zs)))
            ∙ mem-right z.addr (head ∷ addrs ys) (x.addr ∷ z.addr ∷ addrs zs) (ground arith);
        entry = here.2;
      }

  -- A detached node is loose.
  pub detach-Loose :
      (m : LinkedVecMap V) (ys : List (Item V)) (x : Item V) (zs : List (Item V)) (fs : List ℕ)
      → Layout m.cells m.head m.free m.top (ys ++ x ∷ zs) fs
      → Returns
          (λ m'. Loose m'.cells m.head m.free m.top x (ys ++ zs) fs × SameFields m m')
          (detach m x.addr)
  detach-Loose m ys x zs fs l =
      let n = Ring-Neighbours m.cells m.head ys x zs l.ring in
      let middle = addrs-middle m.head ys x zs fs in
      let around = addrs-around m.head ys zs fs in
      let (rest, absent) =
        Distinct-remove (m.head ∷ addrs ys) x.addr (addrs zs ++ fs)
          (subst Distinct middle l.distinct) in
      let nodes = Distinct-append_left (m.head ∷ addrs (ys ++ x ∷ zs)) fs l.distinct in
      let linked = subst Distinct (ap (◌∷◌ m.head) (addrs-append ys (x ∷ zs))) nodes in
      let member =
        λ (j : ℕ). ap (mem j) middle ∙ mem-middle j (m.head ∷ addrs ys) x.addr (addrs zs ++ fs) in
      let still = λ (j : ℕ) (h : mem j (m.head ∷ addrs (ys ++ zs) ++ fs) ≡ true).
        member j ∙ or_true (x.addr == j) _ (sym (ap (mem j) around) ∙ h) in
      let here : mem x.addr (m.head ∷ addrs (ys ++ x ∷ zs) ++ fs) ≡ true =
        member x.addr ∙ ground arith in
      let newer_apart = mem_apart (m.head ∷ addrs (ys ++ x ∷ zs)) fs n.newer l.distinct n.member in
      Returns-map
        (detach_lem m x.addr n.newer n.older n.before n.after n.is_newer n.is_older n.has_next
          n.has_prev)
        (λ m' (d, same). (
          record {
            rest = record {
              ring =
                  Ring-detach m.cells m'.cells m.head n.newer n.older ys x zs linked l.ring
                    n.is_newer n.is_older d;
              frees =
                  Free-frame m.cells m'.cells m.free fs
                    (λ j h. d.nexts j ∙ if_ne n.newer j _ _ (ne_of_mem n.newer j fs newer_apart h))
                    l.frees;
              distinct = subst Distinct (sym around) rest;
              nonzero =
                  ap (mem 0) around ∙ (or_false (x.addr == 0) _ (sym (member 0) ∙ l.nonzero)).1;
              below = λ j h. l.below j (still j h);
            };
            entry = d.entries x.addr ∙ n.entry;
            apart = ap (mem x.addr) around ∙ absent;
            nonnull = (or_false (x.addr == 0) _ (sym (member 0) ∙ l.nonzero)).0;
            under = l.below x.addr here;
          },
          same,
        ))
