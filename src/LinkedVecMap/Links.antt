-- ===== src/LinkedVecMap/Links.antt =====
-- What each operation on the nodes changes in memory.
use grid_server.Base.{
  ℕ, ◌≡◌, refl, sym, ap, ◌∙◌, inl, inr, true, false, Option, none, some, ◌==◌, if◌then◌else◌,
  ==_iff, Bool-cases, if_app, some_inj, Returns, returns, Returns-map, Returns-bind,
}
use grid_server.LinkedVecMap.{
  Node, LinkedVecMap, load, store, set_next, set_prev, detach, attach, update,
}
use grid_server.LinkedVecMap.Ring.{next_of, prev_of, entry_of}
use grid_server.LinkedVecMap.Members.{if_eq, if_ne}
use grid_server.LinkedVecMap.Relink.{Detached, Attached}

module _ {V : Type 0} where
  -- All but the memory is the same.
  pub record SameFields (m m' : LinkedVecMap V) : Type 0 where
    pub map : m'.map ≡ m.map
    pub head : m'.head ≡ m.head
    pub free : m'.free ≡ m.free
    pub top : m'.top ≡ m.top

  pub SameFields-trans : {a b c : LinkedVecMap V} → SameFields a b → SameFields b c → SameFields a c
  SameFields-trans h k = record {
    map = k.map ∙ h.map;
    head = k.head ∙ h.head;
    free = k.free ∙ h.free;
    top = k.top ∙ h.top;
  }

  pub record NextSet (c c' : ℕ → Option (Node V)) (p q : ℕ) : Type 0 where
    pub nexts : (j : ℕ) → next_of (c' j) ≡ (if p == j then some q else next_of (c j))
    pub prevs : (j : ℕ) → prev_of (c' j) ≡ prev_of (c j)
    pub entries : (j : ℕ) → entry_of (c' j) ≡ entry_of (c j)

  pub record PrevSet (c c' : ℕ → Option (Node V)) (p q : ℕ) : Type 0 where
    pub nexts : (j : ℕ) → next_of (c' j) ≡ next_of (c j)
    pub prevs : (j : ℕ) → prev_of (c' j) ≡ (if p == j then some q else prev_of (c j))
    pub entries : (j : ℕ) → entry_of (c' j) ≡ entry_of (c j)

  -- A cell that has a link is allocated.
  pub cell_of_next :
      (o : Option (Node V)) (q : ℕ)
      → next_of o ≡ some q
      → (n : Node V) × (o ≡ some n) × (n.next ≡ q)
  cell_of_next none q h = absurd (cc h)
  cell_of_next (some n) q h = (n, refl, some_inj h)

  pub cell_of_prev :
      (o : Option (Node V)) (q : ℕ)
      → prev_of o ≡ some q
      → (n : Node V) × (o ≡ some n) × (n.prev ≡ q)
  cell_of_prev none q h = absurd (cc h)
  cell_of_prev (some n) q h = (n, refl, some_inj h)

  -- What is the same at `p` is the same everywhere.
  pub kept :
      {A : Type 0} (g : Option (Node V) → A) (c : ℕ → Option (Node V)) (p j : ℕ)
      (o : Option (Node V))
      → g o ≡ g (c p)
      → g (update c p o j) ≡ g (c j)
  kept g c p j o e = elim (Bool-cases (p == j)) [
    | inl k ↦ rw k (e ∙ ap (λ a. g (c a)) ((==_iff p j).0 k))
    | inr k ↦ rw k refl
  ]

  pub set_next_lem :
      (m : LinkedVecMap V) (p q : ℕ) (n : Node V)
      → m.cells p ≡ some n
      → Returns (λ m'. NextSet m.cells m'.cells p q × SameFields m m') (set_next m p q)
  unfolding set_next load store
  set_next_lem m p q n e =
      rw (e, set_next)
        (returns (
          record {
            nexts = λ j. if_app next_of (p == j) (some (record n { next = q })) (m.cells j);
            prevs =
                λ j. kept prev_of m.cells p j (some (record n { next = q })) (ap prev_of (sym e));
            entries =
                λ j. kept entry_of m.cells p j (some (record n { next = q })) (ap entry_of (sym e));
          },
          record { map = refl; head = refl; free = refl; top = refl },
        ))

  pub set_prev_lem :
      (m : LinkedVecMap V) (p q : ℕ) (n : Node V)
      → m.cells p ≡ some n
      → Returns (λ m'. PrevSet m.cells m'.cells p q × SameFields m m') (set_prev m p q)
  unfolding set_prev load store
  set_prev_lem m p q n e =
      rw (e, set_prev)
        (returns (
          record {
            nexts =
                λ j. kept next_of m.cells p j (some (record n { prev = q })) (ap next_of (sym e));
            prevs = λ j. if_app prev_of (p == j) (some (record n { prev = q })) (m.cells j);
            entries =
                λ j. kept entry_of m.cells p j (some (record n { prev = q })) (ap entry_of (sym e));
          },
          record { map = refl; head = refl; free = refl; top = refl },
        ))

  -- The links of a node, and what its neighbours have, let it be detached.
  pub detach_lem :
      (m : LinkedVecMap V) (p b f x y : ℕ)
      → prev_of (m.cells p) ≡ some b
      → next_of (m.cells p) ≡ some f
      → next_of (m.cells b) ≡ some x
      → prev_of (m.cells f) ≡ some y
      → Returns (λ m'. Detached m.cells m'.cells b f × SameFields m m') (detach m p)
  unfolding detach load
  detach_lem m p b f x y eb ef ex ey =
      let (node, at_p, is_b) = cell_of_prev (m.cells p) b eb in
      let is_f : node.next ≡ f = some_inj (sym (ap next_of at_p) ∙ ef) in
      let (neighbour, at_b, is_x) = cell_of_next (m.cells b) x ex in
      rw (at_p, detach)
        (rw is_b (
          rw is_f (
            Returns-bind (set_next_lem m b f neighbour at_b) (λ m1 (next, same).
              let again : next_of (m1.cells p) ≡ some f =
                next.nexts p
                ∙ elim (b == p) as (λ t. (if t then some f else next_of (m.cells p)) ≡ some f) [
                  | true ↦ refl
                  | false ↦ ef
                ] in
              let (node1, at_p1, is_f1) = cell_of_next (m1.cells p) f again in
              let is_b1 : node1.prev ≡ b = some_inj (sym (ap prev_of at_p1) ∙ next.prevs p ∙ eb) in
              let (other, at_f, is_y) = cell_of_prev (m1.cells f) y (next.prevs f ∙ ey) in
              rw (at_p1, load)
                (rw is_f1 (
                  rw is_b1 (
                    Returns-map (set_prev_lem m1 f b other at_f) (λ m2 (prev, same2). (
                      record {
                        nexts = λ j. prev.nexts j ∙ next.nexts j;
                        prevs = λ j.
                            prev.prevs j ∙ ap (λ o. if f == j then some b else o) (next.prevs j);
                        entries = λ j. prev.entries j ∙ next.entries j;
                      },
                      SameFields-trans same same2,
                    )))))))))

  -- A link that is written on one node is there on all that had one.
  prev_stays :
      (c c' : ℕ → Option (Node V)) (p j q : ℕ)
      → PrevSet c c' p q
      → (y : ℕ) → prev_of (c j) ≡ some y
      → (z : ℕ) × (prev_of (c' j) ≡ some z)
  prev_stays c c' p j q h y e = elim (Bool-cases (p == j)) [
    | inl k ↦ (q, h.prevs j ∙ ap (λ t. if t then some q else prev_of (c j)) k)
    | inr k ↦ (y, h.prevs j ∙ if_ne p j _ _ k ∙ e)
  ]

  has_prev :
      (o o' : Option (Node V))
      → prev_of o ≡ prev_of o'
      → (z : ℕ) × (prev_of o' ≡ some z)
      → (n : Node V) × (o ≡ some n)
  has_prev o o' same (z, e) = let (n, found, link) = cell_of_prev o z (same ∙ e) in (n, found)

  -- A node with a cell is attached behind the guard, whose newest node is `l`.
  pub attach_lem :
      (m : LinkedVecMap V) (p l x y : ℕ)
      → (m.head == p) ≡ false
      → next_of (m.cells m.head) ≡ some l
      → next_of (m.cells p) ≡ some x
      → prev_of (m.cells l) ≡ some y
      → Returns (λ m'. Attached m.cells m'.cells m.head p l × SameFields m m') (attach m p)
  unfolding attach load
  attach_lem m p l x y apart el ex ey =
      let (guard, at_head, is_l) = cell_of_next (m.cells m.head) l el in
      let (node, at_p, is_x) = cell_of_next (m.cells p) x ex in
      rw (at_head, attach)
        (rw is_l (
          Returns-bind (set_next_lem m p l node at_p) (λ m1 (one, same1).
            let (node1, at_p1, is_l1) = cell_of_next (m1.cells p) l (one.nexts p ∙ if_eq p _ _) in
            Returns-bind (set_prev_lem m1 p m.head node1 at_p1) (λ m2 (two, same2).
              let (guard2, at_head2, is_next2) = cell_of_next (m2.cells m.head) _ (
                two.nexts m.head
                ∙ one.nexts m.head
                ∙ elim (p == m.head)
                    as (λ t. (if t then some l else next_of (m.cells m.head)) ≡ some l) [
                      | true ↦ refl
                      | false ↦ el
                    ]) in
              Returns-bind (set_next_lem m2 m.head p guard2 at_head2) (λ m3 (three, same3).
                let (node3, at_p3, is_l3) = cell_of_next (m3.cells p) l (
                  three.nexts p
                  ∙ if_ne m.head p _ _ apart
                  ∙ two.nexts p
                  ∙ one.nexts p
                  ∙ if_eq p _ _) in
                let (end, at_end) =
                  has_prev (m3.cells l) (m2.cells l) (three.prevs l)
                    (prev_stays m1.cells m2.cells p l m.head two y (one.prevs l ∙ ey)) in
                rw (at_p3, load)
                  (rw is_l3 (
                    Returns-map (set_prev_lem m3 l p end at_end) (λ m4 (four, same4). (
                      record {
                        nexts = λ j.
                            four.nexts j
                            ∙ three.nexts j
                            ∙ ap (λ o. if m.head == j then some p else o)
                                (two.nexts j ∙ one.nexts j);
                        prevs = λ j.
                            four.prevs j
                            ∙ ap (λ o. if l == j then some p else o)
                                (three.prevs j
                                  ∙ two.prevs j
                                  ∙ ap (λ o. if p == j then some m.head else o) (one.prevs j));
                        entries =
                            λ j. four.entries j ∙ three.entries j ∙ two.entries j ∙ one.entries j;
                      },
                      SameFields-trans (SameFields-trans (SameFields-trans same1 same2) same3)
                          same4,
                    )))))))))
