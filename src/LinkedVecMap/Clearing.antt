-- ===== src/LinkedVecMap/Clearing.antt =====
-- `clear`: the nodes of the entries are freed, the guard and the free list stay.
use grid_server.Base.{
  ℕ, zero, suc, ◌≡◌, refl, sym, ap, ◌∙◌, subst, true, false, Option, none, some, List, [], ◌∷◌,
  ◌++◌, arith, ◌==◌, if◌then◌else◌, ==_iff, ==_refl, length, append_nil, Run, ok, out_of_fuel,
  ◌>>=◌, Returns, returns, Returns-map, Returns-bind,
}
use grid_server.VecMap
use grid_server.VecMap.Lookup.{get-clear}
use grid_server.LinkedVecMap.{Node, LinkedVecMap, load, dealloc, set_next, set_prev, len, update}
use grid_server.LinkedVecMap.Members.{
  mem-widen, mem-narrow, or_true, mem-right, mem, Distinct, or_false, mem-append, mem_ne,
  Distinct-append_left, Distinct-append_right, last, mem_apart, ne_of_mem, if_eq, if_ne,
  mem_apart_left,
}
use grid_server.LinkedVecMap.Ring.{
  Item, addrs, addrs-append, next_of, prev_of, entry_of, Chain, Chain-split, Chain-frame,
}
use grid_server.LinkedVecMap.Links.{
  SameFields, SameFields-trans, cell_of_next, set_next_lem, set_prev_lem,
}
use grid_server.LinkedVecMap.Index.{Index, length-middle, length-entries}
use grid_server.LinkedVecMap.Memory.{Free-frame}
use grid_server.LinkedVecMap.Refinement.{
  Linked, Represents, linked, unguarded, Layout-same, head-guarded,
}
use grid_server.LinkedVecMap.Ends.{last_item, len_lem}

module _ {V : Type 0} where
  -- The loop of `drop_entries` from `cur` on.
  unfoldable pub drop_from : ℕ → LinkedVecMap V → ℕ → Run (LinkedVecMap V)
  unfolding load dealloc
  drop_from zero m cur = if cur == m.head then ok m else out_of_fuel
  drop_from (suc fuel) m cur =
      let rest = (do node ← load m cur; m' ← dealloc m cur; drop_from fuel m' node.next) in
      if cur == m.head then ok m else rest

  unfoldable pub drop_entries : ℕ → LinkedVecMap V → Run (LinkedVecMap V)
  unfolding drop_from load
  drop_entries fuel m = do guard ← load m m.head; drop_from fuel m guard.next

  -- The loop runs once for each entry.
  unfoldable pub clear : LinkedVecMap V → Run (LinkedVecMap V)
  unfolding drop_entries set_next set_prev len VecMap.clear
  clear m =
      let empty : LinkedVecMap V = record m { map = VecMap.clear m.map } in
      if m.head == 0 then ok empty else (do
        m1 ← drop_entries (len m) empty
        m2 ← set_prev m1 m.head m.head
        set_next m2 m.head m.head)

  -- The cells but for given ones are the same.
  record Dropped (nodes : List ℕ) (m m' : LinkedVecMap V) : Type 0 where
    pub others : (j : ℕ) → mem j nodes ≡ false → m'.cells j ≡ m.cells j
    pub same : SameFields m m'

  drop_lem :
      (n : ℕ) (m : LinkedVecMap V) (xs : List (Item V))
      → length xs ≡ n
      → Chain m.cells m.head xs
      → Distinct (m.head ∷ addrs xs)
      → Returns (Dropped (addrs xs) m) (drop_from n m (last m.head (addrs xs)))
  unfolding drop_from dealloc load
  drop_lem zero m [] h p d =
      rw (==_refl m.head, drop_from)
        (returns (record {
          others = λ j k. refl;
          same = record { map = refl; head = refl; free = refl; top = refl };
        }))
  drop_lem zero m (x ∷ zs) h p d = absurd (omega (arith, h))
  drop_lem (suc n) m [] h p d = absurd (omega (arith, h))
  drop_lem (suc n) m (x ∷ zs) h p d =
      let (ys, y, parts, end) = last_item m.head x zs in
      let (earlier, (q, nx, en, _)) =
        Chain-split m.cells m.head ys (y ∷ []) (subst (Chain m.cells m.head) parts p) in
      let nodes : addrs (x ∷ zs) ≡ addrs ys ++ y.addr ∷ [] =
        ap addrs parts ∙ addrs-append ys (y ∷ []) in
      let d' = subst (λ l. Distinct (m.head ∷ l)) nodes d in
      let left = Distinct-append_left (m.head ∷ addrs ys) (y.addr ∷ []) d' in
      let y_left = mem_apart_left (m.head ∷ addrs ys) (y.addr ∷ []) y.addr d' (ground arith) in
      let not_head =
        mem_ne y.addr m.head (addrs (x ∷ zs))
          (ap (mem y.addr) nodes ∙ mem-right y.addr (addrs ys) (y.addr ∷ []) (ground arith)) d.0 in
      let (node, at_y, is_next) = cell_of_next (m.cells y.addr) (last m.head (addrs ys)) nx in
      let m1 : LinkedVecMap V = record m { cells = update m.cells y.addr none } in
      let apart = λ (j : ℕ) (k : mem j (m.head ∷ addrs ys) ≡ true).
        if_ne {A = Option (Node V)} y.addr j none (m.cells j)
          (ne_of_mem y.addr j (m.head ∷ addrs ys) y_left k) in
      let chain : Chain m1.cells m.head ys =
        Chain-frame m.cells m1.cells m.head ys left
          (λ j k.
            let e = apart j (or_true (m.head == j) (mem j (addrs ys)) k) in
            (ap next_of e, ap entry_of e))
          (λ j k l. ap prev_of (apart j k)) earlier in
      let count : length ys ≡ n =
        omega (arith, h, ap length parts, length-middle ys y [], ap length (append_nil ys)) in
      rw end (
        rw (not_head, drop_from)
          (rw at_y (
            rw is_next (
              Returns-map (drop_lem n m1 ys count chain left) (λ m' r. record {
                others = λ j k.
                    let (k1, k2) =
                      or_false (mem j (addrs ys)) (mem j (y.addr ∷ [])) (
                        sym (mem-append j (addrs ys) (y.addr ∷ [])) ∙ ap (mem j) (sym nodes) ∙ k) in
                    r.others j k1
                    ∙ if_ne y.addr j none (m.cells j) ((or_false (y.addr == j) false k2).0);
                same = record {
                  map = r.same.map;
                  head = r.same.head;
                  free = r.same.free;
                  top = r.same.top;
                };
              })))))

  Index-clear : (index : VecMap.VecMap ℕ) → Index {V = V} (VecMap.clear index) []
  unfolding VecMap.clear
  Index-clear index = record { finds = λ k. get-clear index k; distinct = tt; counted = refl }

  clear-Linked :
      (m : LinkedVecMap V) (es : List (ℕ × V))
      → Linked m es
      → Returns (λ m'. Represents m' []) (clear m)
  unfolding clear drop_entries load
  clear-Linked m es h =
      let l = h.layout in
      let empty : LinkedVecMap V = record m { map = VecMap.clear m.map } in
      let (guard, at_head, is_last) =
        cell_of_next (m.cells m.head) (last m.head (addrs h.items)) l.ring.close_next in
      let nodes = Distinct-append_left (m.head ∷ addrs h.items) h.frees l.distinct in
      let apart = mem_apart (m.head ∷ addrs h.items) h.frees m.head l.distinct (ground arith) in
      let kept_free = λ (j : ℕ) (k : mem j h.frees ≡ true).
        (or_false (m.head == j) (mem j (addrs h.items))
          (mem_apart_left (m.head ∷ addrs h.items) h.frees j l.distinct k)).1 in
      let count : length h.items ≡ len m =
        sym (len_lem m es (linked h) ∙ ap length h.holds ∙ length-entries h.items) in
      rw (head-guarded m h.items h.frees l, clear)
        (rw at_head (
          rw is_last (
            Returns-bind (drop_lem (len m) empty h.items count l.ring.path nodes) (λ m1 r.
              let at1 : m1.cells m.head ≡ some guard = r.others m.head nodes.0 ∙ at_head in
              Returns-bind (set_prev_lem m1 m.head m.head guard at1) (λ m2 (s, same2).
                let (guard2, at2, is_next2) =
                  cell_of_next (m2.cells m.head) guard.next (s.nexts m.head ∙ ap next_of at1) in
                Returns-map (set_next_lem m2 m.head m.head guard2 at2) (λ m3 (t, same3).
                  let same : SameFields empty m3 =
                    SameFields-trans r.same (SameFields-trans same2 same3) in
                  linked (record {
                    items = [];
                    frees = h.frees;
                    layout = Layout-same same (record {
                      ring = record {
                        path = tt;
                        close_prev = t.prevs m.head ∙ s.prevs m.head ∙ if_eq m.head _ _;
                        close_next = t.nexts m.head ∙ if_eq m.head _ _;
                      };
                      frees =
                          Free-frame m.cells m3.cells m.free h.frees
                            (λ j k.
                              t.nexts j
                              ∙ if_ne m.head j _ _ (ne_of_mem m.head j h.frees apart k)
                              ∙ s.nexts j
                              ∙ ap next_of (r.others j (kept_free j k)))
                            l.frees;
                      distinct = (
                        apart,
                        Distinct-append_right (m.head ∷ addrs h.items) h.frees l.distinct,
                      );
                      nonzero = mem-narrow 0 m.head (addrs h.items) h.frees l.nonzero;
                      below = λ j k. l.below j (mem-widen j m.head (addrs h.items) h.frees k);
                    });
                    index = rw same.map (Index-clear m.map);
                    holds = refl;
                  })))))))

  pub clear-Represents :
      (m : LinkedVecMap V) (es : List (ℕ × V))
      → Represents m es
      → Returns (λ m'. Represents m' []) (clear m)
  unfolding clear
  clear-Represents m es (unguarded no_head no_free room index no_entries) =
      rw ((==_iff m.head 0).1 no_head, clear)
        (returns (unguarded no_head no_free room (Index-clear m.map) refl))
  clear-Represents m es (linked h) = clear-Linked m es h
