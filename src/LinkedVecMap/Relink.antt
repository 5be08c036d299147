-- ===== src/LinkedVecMap/Relink.antt =====
-- What detaching and attaching a node make of the ring.
use grid_server.Base.{
  ℕ, ◌≡◌, sym, ap, ◌∙◌, subst, false, Option, some, List, [], ◌∷◌, ◌++◌, arith, ◌==◌, if◌then◌else◌,
  some_inj, append_nil,
}
use grid_server.LinkedVecMap.{Node}
use grid_server.LinkedVecMap.Members.{
  mem, Distinct, or_false, mem_ne, Distinct-append_left, Distinct-append_right, last, mem-last,
  last-append, mem_apart, ne_of_mem, if_eq, if_ne, mem_apart_left,
}
use grid_server.LinkedVecMap.Ring.{
  Item, addrs, next_of, prev_of, entry_of, Chain, Ring, addrs-append, Chain-split, Chain-join,
  Chain-frame,
}

module _ {V : Type 0} where
  -- The node with `prev` `b` and `next` `f` is bridged.
  pub record Detached (c c' : ℕ → Option (Node V)) (b f : ℕ) : Type 0 where
    pub nexts : (j : ℕ) → next_of (c' j) ≡ (if b == j then some f else next_of (c j))
    pub prevs : (j : ℕ) → prev_of (c' j) ≡ (if f == j then some b else prev_of (c j))
    pub entries : (j : ℕ) → entry_of (c' j) ≡ entry_of (c j)

  -- The oldest items keep their path when a later node is detached.
  Chain-detach :
      (c c' : ℕ → Option (Node V)) (head b : ℕ) (xs : List (Item V))
      → Distinct (head ∷ addrs xs)
      → mem b (addrs xs) ≡ false
      → Detached c c' b (last head (addrs xs))
      → Chain c head xs
      → Chain c' head xs
  Chain-detach c c' head b xs d absent h p =
      Chain-frame c c' head xs d
        (λ j m. (h.nexts j ∙ if_ne b j _ _ (ne_of_mem b j (addrs xs) absent m), h.entries j))
        (λ j m l. h.prevs j ∙ if_ne (last head (addrs xs)) j _ _ l) p

  -- The newest item is detached.
  Ring-detach_last :
      (c c' : ℕ → Option (Node V)) (head b f : ℕ) (xs : List (Item V)) (x : Item V)
      → Distinct (head ∷ addrs xs ++ x.addr ∷ [])
      → Ring c head (xs ++ x ∷ [])
      → prev_of (c x.addr) ≡ some b
      → next_of (c x.addr) ≡ some f
      → Detached c c' b f
      → Ring c' head xs
  Ring-detach_last c c' head b f xs x d r eb ef h =
      let (before, here) = Chain-split c head xs (x ∷ []) r.path in
      let end : last head (addrs (xs ++ x ∷ [])) ≡ x.addr =
        ap (last head) (addrs-append xs (x ∷ [])) ∙ last-append head (addrs xs) (x.addr ∷ []) in
      let is_head : b ≡ head =
        some_inj (sym eb ∙ sym (ap (λ a. prev_of (c a)) end) ∙ r.close_prev) in
      let is_last : f ≡ last head (addrs xs) = some_inj (sym ef ∙ here.1) in
      let h' : Detached c c' head (last head (addrs xs)) =
        subst (λ a. Detached c c' a (last head (addrs xs))) is_head
          (subst (Detached c c' b) is_last h) in
      let left = Distinct-append_left (head ∷ addrs xs) (x.addr ∷ []) d in
      record {
        path = Chain-detach c c' head head xs left left.0 h' before;
        close_prev = h'.prevs (last head (addrs xs)) ∙ if_eq (last head (addrs xs)) _ _;
        close_next = h'.nexts head ∙ if_eq head _ _;
      }

  -- An older item is detached.
  Ring-detach_inner :
      (c c' : ℕ → Option (Node V)) (head b f : ℕ) (xs : List (Item V)) (x y : Item V)
      (ys : List (Item V))
      → Distinct (head ∷ addrs xs ++ x.addr ∷ y.addr ∷ addrs ys)
      → Ring c head (xs ++ x ∷ y ∷ ys)
      → prev_of (c x.addr) ≡ some b
      → next_of (c x.addr) ≡ some f
      → Detached c c' b f
      → Ring c' head (xs ++ y ∷ ys)
  Ring-detach_inner c c' head b f xs x y ys d r eb ef h =
      let (before, first) = Chain-split c head xs (x ∷ y ∷ ys) r.path in
      let second = first.3 in
      let is_y : b ≡ y.addr = some_inj (sym eb ∙ second.0) in
      let is_last : f ≡ last head (addrs xs) = some_inj (sym ef ∙ first.1) in
      let l : ℕ = last head (addrs xs) in
      let h' : Detached c c' y.addr l =
        subst (λ a. Detached c c' a l) is_y (subst (Detached c c' b) is_last h) in
      let left = Distinct-append_left (head ∷ addrs xs) (x.addr ∷ y.addr ∷ addrs ys) d in
      let right = Distinct-append_right (head ∷ addrs xs) (x.addr ∷ y.addr ∷ addrs ys) d in
      let apart = mem_apart (head ∷ addrs xs) (x.addr ∷ y.addr ∷ addrs ys) in
      let l_apart = apart l d (mem-last head (addrs xs)) in
      let l_later = (or_false (x.addr == l) (mem l (y.addr ∷ addrs ys)) l_apart).1 in
      let y_not =
        mem_apart_left (head ∷ addrs xs) (x.addr ∷ y.addr ∷ addrs ys) y.addr d (ground arith) in
      let e : ℕ = last y.addr (addrs ys) in
      let end_before : last head (addrs (xs ++ x ∷ y ∷ ys)) ≡ last y.addr (addrs ys) =
        ap (last head) (addrs-append xs (x ∷ y ∷ ys))
        ∙ last-append head (addrs xs) (x.addr ∷ y.addr ∷ addrs ys) in
      let end_after : last head (addrs (xs ++ y ∷ ys)) ≡ last y.addr (addrs ys) =
        ap (last head) (addrs-append xs (y ∷ ys))
        ∙ last-append head (addrs xs) (y.addr ∷ addrs ys) in
      record {
        path =
            Chain-join c' head xs (y ∷ ys)
              (Chain-detach c c' head y.addr xs left
                ((or_false (head == y.addr) (mem y.addr (addrs xs)) y_not).1) h' before)
              (
                h'.prevs l ∙ if_eq l _ _,
                h'.nexts y.addr ∙ if_eq y.addr _ _,
                h'.entries y.addr ∙ second.2,
                Chain-frame c c' y.addr ys right.1
                    (λ j m. (
                      h'.nexts j ∙ if_ne y.addr j _ _ (ne_of_mem y.addr j (addrs ys) right.1.0 m),
                      h'.entries j,
                    ))
                    (λ j m k.
                      h'.prevs j ∙ if_ne l j _ _ (ne_of_mem l j (y.addr ∷ addrs ys) l_later m))
                    second.3,
              );
        close_prev =
            ap (λ a. prev_of (c' a)) end_after
            ∙ h'.prevs e
            ∙ if_ne l e _ _ (ne_of_mem l e (y.addr ∷ addrs ys) l_later (mem-last y.addr (addrs ys)))
            ∙ ap (λ a. prev_of (c a)) (sym end_before)
            ∙ r.close_prev;
        close_next =
            h'.nexts head
            ∙ if_ne y.addr head _ _ (ne_of_mem y.addr head (head ∷ addrs xs) y_not (ground arith))
            ∙ r.close_next
            ∙ ap some (end_before ∙ sym end_after);
      }

  -- A detached item leaves a ring of the others.
  pub Ring-detach :
      (c c' : ℕ → Option (Node V)) (head b f : ℕ) (xs : List (Item V)) (x : Item V)
      (ys : List (Item V))
      → Distinct (head ∷ addrs xs ++ x.addr ∷ addrs ys)
      → Ring c head (xs ++ x ∷ ys)
      → prev_of (c x.addr) ≡ some b
      → next_of (c x.addr) ≡ some f
      → Detached c c' b f
      → Ring c' head (xs ++ ys)
  Ring-detach c c' head b f xs x [] d r eb ef h =
      subst (Ring c' head) (append_nil xs) (Ring-detach_last c c' head b f xs x d r eb ef h)
  Ring-detach c c' head b f xs x (y ∷ ys) d r eb ef h =
      Ring-detach_inner c c' head b f xs x y ys d r eb ef h

  -- The node `p` stands between the guard and the former newest node `l`.
  pub record Attached (c c' : ℕ → Option (Node V)) (head p l : ℕ) : Type 0 where
    pub nexts :
        (j : ℕ)
        → next_of (c' j) ≡ (if head == j then some p else if p == j then some l else next_of (c j))
    pub prevs :
        (j : ℕ)
        → prev_of (c' j) ≡ (if l == j then some p else if p == j then some head else prev_of (c j))
    pub entries : (j : ℕ) → entry_of (c' j) ≡ entry_of (c j)

  -- An attached item is the newest of the ring.
  pub Ring-attach :
      (c c' : ℕ → Option (Node V)) (head l : ℕ) (xs : List (Item V)) (x : Item V)
      → Distinct (head ∷ addrs xs)
      → mem x.addr (head ∷ addrs xs) ≡ false
      → Ring c head xs
      → next_of (c head) ≡ some l
      → entry_of (c x.addr) ≡ some (x.key, x.val)
      → Attached c c' head x.addr l
      → Ring c' head (xs ++ x ∷ [])
  Ring-attach c c' head l xs x d absent r el entry h =
      let is_last : l ≡ last head (addrs xs) = some_inj (sym el ∙ r.close_next) in
      let e : ℕ = last head (addrs xs) in
      let h' : Attached c c' head x.addr e = subst (Attached c c' head x.addr) is_last h in
      let split = or_false (head == x.addr) (mem x.addr (addrs xs)) absent in
      let end : last head (addrs (xs ++ x ∷ [])) ≡ x.addr =
        ap (last head) (addrs-append xs (x ∷ [])) ∙ last-append head (addrs xs) (x.addr ∷ []) in
      let not_end : (e == x.addr) ≡ false =
        mem_ne e x.addr (head ∷ addrs xs) (mem-last head (addrs xs)) absent in
      record {
        path =
            Chain-join c' head xs (x ∷ [])
              (Chain-frame c c' head xs d
                (λ j m. (
                  h'.nexts j
                      ∙ if_ne head j _ _ (ne_of_mem head j (addrs xs) d.0 m)
                      ∙ if_ne x.addr j _ _ (ne_of_mem x.addr j (addrs xs) split.1 m),
                  h'.entries j,
                ))
                (λ j m k.
                  h'.prevs j
                  ∙ if_ne e j _ _ k
                  ∙ if_ne x.addr j _ _ (ne_of_mem x.addr j (head ∷ addrs xs) absent m))
                r.path)
              (
                h'.prevs e ∙ if_eq e _ _,
                h'.nexts x.addr ∙ if_ne head x.addr _ _ split.0 ∙ if_eq x.addr _ _,
                h'.entries x.addr ∙ entry,
                tt,
              );
        close_prev =
            ap (λ a. prev_of (c' a)) end
            ∙ h'.prevs x.addr
            ∙ if_ne e x.addr _ _ not_end
            ∙ if_eq x.addr _ _;
        close_next = h'.nexts head ∙ if_eq head _ _ ∙ ap some (sym end);
      }
