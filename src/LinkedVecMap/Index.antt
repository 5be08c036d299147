-- ===== src/LinkedVecMap/Index.antt =====
-- The map from keys to the addresses of the nodes, and the entries as a list without addresses.
use grid_server.Base.{
  ℕ, suc, ◌+◌, ◌-◌, ◌≡◌, refl, sym, ap, ◌∙◌, subst, inl, inr, false, Option, none, some, List, [],
  ◌∷◌, ◌++◌, arith, ◌==◌, if◌then◌else◌, ==_iff, Bool-cases, some_inj, length, append_nil,
}
use grid_server.VecMap
use grid_server.VecMap.{VecMap}
use grid_server.LinkedVecMap.Members.{
  mem, Distinct, or_false, mem-append, Distinct-remove, Distinct-snoc, if_eq, if_ne,
}
use grid_server.LinkedVecMap.Ring.{Item}

module _ {V : Type 0} where
  abbrev pub keys : List (Item V) → List ℕ
  keys [] = []
  keys (x ∷ xs) = x.key ∷ keys xs

  abbrev pub entries : List (Item V) → List (ℕ × V)
  entries [] = []
  entries (x ∷ xs) = (x.key, x.val) ∷ entries xs

  abbrev pub find_addr : ℕ → List (Item V) → Option ℕ
  find_addr k [] = none
  find_addr k (x ∷ xs) = if x.key == k then some x.addr else find_addr k xs

  abbrev pub lookup : ℕ → List (ℕ × V) → Option V
  lookup k [] = none
  lookup k ((j, v) ∷ es) = if j == k then some v else lookup k es

  abbrev pub without : ℕ → List (ℕ × V) → List (ℕ × V)
  without k [] = []
  without k ((j, v) ∷ es) = if j == k then without k es else (j, v) ∷ without k es

  -- A write keeps the order of the entries.
  abbrev pub written : ℕ → (V → V) → List (ℕ × V) → List (ℕ × V)
  written k f [] = []
  written k f ((j, v) ∷ es) = if j == k then (j, f v) ∷ es else (j, v) ∷ written k f es

  pub keys-append : (xs ys : List (Item V)) → keys (xs ++ ys) ≡ keys xs ++ keys ys
  keys-append [] ys = refl
  keys-append (x ∷ xs) ys = ap (◌∷◌ x.key) (keys-append xs ys)

  pub entries-append : (xs ys : List (Item V)) → entries (xs ++ ys) ≡ entries xs ++ entries ys
  entries-append [] ys = refl
  entries-append (x ∷ xs) ys = ap (◌∷◌ (x.key, x.val)) (entries-append xs ys)

  pub length-entries : (xs : List (Item V)) → length (entries xs) ≡ length xs
  length-entries [] = refl
  length-entries (x ∷ xs) = ap suc (length-entries xs)

  -- A key that no item has.
  pub find-absent : (k : ℕ) (xs : List (Item V)) → mem k (keys xs) ≡ false → find_addr k xs ≡ none
  find-absent k [] h = refl
  find-absent k (x ∷ xs) h = ground (arith, find-absent k xs)

  pub absent-find : (k : ℕ) (xs : List (Item V)) → find_addr k xs ≡ none → mem k (keys xs) ≡ false
  absent-find k [] h = refl
  absent-find k (x ∷ xs) h = ground (arith, absent-find k xs)

  pub lookup-absent :
      (k : ℕ) (xs : List (Item V)) → mem k (keys xs) ≡ false → lookup k (entries xs) ≡ none
  lookup-absent k [] h = refl
  lookup-absent k (x ∷ xs) h = ground (arith, lookup-absent k xs)

  pub without-absent :
      (k : ℕ) (xs : List (Item V)) → mem k (keys xs) ≡ false → without k (entries xs) ≡ entries xs
  without-absent k [] h = refl
  without-absent k (x ∷ xs) h =
      let (other, rest) = or_false (x.key == k) (mem k (keys xs)) h in
      rw other (ap (◌∷◌ (x.key, x.val)) (without-absent k xs rest))

  -- The item that a key finds.
  pub record Found (k p : ℕ) (xs : List (Item V)) : Type 0 where
    pub before : List (Item V)
    pub item : Item V
    pub after : List (Item V)
    pub parts : xs ≡ before ++ item ∷ after
    pub is_key : item.key ≡ k
    pub is_addr : item.addr ≡ p

  pub find_lem : (k p : ℕ) (xs : List (Item V)) → find_addr k xs ≡ some p → Found k p xs
  find_lem k p [] h = absurd (cc h)
  find_lem k p (x ∷ xs) h = elim (Bool-cases (x.key == k)) [
    | inl here ↦ record {
      before = [];
      item = x;
      after = xs;
      parts = refl;
      is_key = (==_iff x.key k).0 here;
      is_addr = some_inj (sym (ap (λ t. if t then some x.addr else find_addr k xs) here) ∙ h);
    }
    | inr other ↦
        let f = find_lem k p xs (sym (if_ne x.key k _ _ other) ∙ h) in
        record {
          before = x ∷ f.before;
          item = f.item;
          after = f.after;
          parts = ap (◌∷◌ x) f.parts;
          is_key = f.is_key;
          is_addr = f.is_addr;
        }
  ]

  -- An item whose key no earlier item has.
  pub find-middle :
      (j : ℕ) (ys : List (Item V)) (x : Item V) (zs : List (Item V))
      → mem x.key (keys ys) ≡ false
      → find_addr j (ys ++ x ∷ zs) ≡ (if x.key == j then some x.addr else find_addr j (ys ++ zs))
  find-middle j [] x zs h = refl
  find-middle j (y ∷ ys) x zs h =
      let (other, rest) = or_false (y.key == x.key) (mem x.key (keys ys)) h in
      elim (Bool-cases (y.key == j)) [
        | inl here ↦
            let apart : (x.key == j) ≡ false = ground (arith, (==_iff y.key j).0 here) in
            rw here (rw apart refl)
        | inr later ↦ rw later (find-middle j ys x zs rest)
      ]

  pub lookup-middle :
      (ys : List (Item V)) (x : Item V) (zs : List (Item V))
      → mem x.key (keys ys) ≡ false
      → lookup x.key (entries (ys ++ x ∷ zs)) ≡ some x.val
  lookup-middle [] x zs h = if_eq x.key _ _
  lookup-middle (y ∷ ys) x zs h =
      let (other, rest) = or_false (y.key == x.key) (mem x.key (keys ys)) h in
      rw other (lookup-middle ys x zs rest)

  pub without-middle :
      (ys : List (Item V)) (x : Item V) (zs : List (Item V))
      → mem x.key (keys (ys ++ zs)) ≡ false
      → without x.key (entries (ys ++ x ∷ zs)) ≡ entries (ys ++ zs)
  without-middle [] x zs h = if_eq x.key _ _ ∙ without-absent x.key zs h
  without-middle (y ∷ ys) x zs h =
      let (other, rest) = or_false (y.key == x.key) (mem x.key (keys (ys ++ zs))) h in
      rw other (ap (◌∷◌ (y.key, y.val)) (without-middle ys x zs rest))

  pub written-middle :
      (f : V → V) (ys : List (Item V)) (x : Item V) (zs : List (Item V))
      → mem x.key (keys ys) ≡ false
      → written x.key f (entries (ys ++ x ∷ zs)) ≡ entries (ys ++ record x { val = f x.val } ∷ zs)
  written-middle f [] x zs h = if_eq x.key _ _
  written-middle f (y ∷ ys) x zs h =
      let (other, rest) = or_false (y.key == x.key) (mem x.key (keys ys)) h in
      rw other (ap (◌∷◌ (y.key, y.val)) (written-middle f ys x zs rest))

  pub length-middle :
      (ys : List (Item V)) (x : Item V) (zs : List (Item V))
      → length (ys ++ x ∷ zs) ≡ length (ys ++ zs) + 1
  length-middle [] x zs = omega arith
  length-middle (y ∷ ys) x zs = omega (arith, length-middle ys x zs)

  pub record Index (index : VecMap ℕ) (xs : List (Item V)) : Type 0 where
    pub finds : (k : ℕ) → VecMap.get index k ≡ find_addr k xs
    pub distinct : Distinct (keys xs)
    pub counted : index.n ≡ length xs

  -- The keys of the items around one of them.
  pub Distinct-keys :
      (ys : List (Item V)) (x : Item V) (zs : List (Item V))
      → Distinct (keys (ys ++ x ∷ zs))
      → Distinct (keys (ys ++ zs))
        × (mem x.key (keys (ys ++ zs)) ≡ false)
        × (mem x.key (keys ys) ≡ false)
  Distinct-keys ys x zs d =
      let (rest, absent) =
        Distinct-remove (keys ys) x.key (keys zs) (subst Distinct (keys-append ys (x ∷ zs)) d) in
      (
        subst Distinct (sym (keys-append ys zs)) rest,
        ap (mem x.key) (keys-append ys zs) ∙ absent,
        (or_false (mem x.key (keys ys)) (mem x.key (keys zs))
            (sym (mem-append x.key (keys ys) (keys zs)) ∙ absent)).0,
      )

  pub Index-remove :
      (index index' : VecMap ℕ) (ys : List (Item V)) (x : Item V) (zs : List (Item V))
      → Index index (ys ++ x ∷ zs)
      → ((j : ℕ) → VecMap.get index' j ≡ (if x.key == j then none else VecMap.get index j))
      → index'.n ≡ index.n - 1
      → Index index' (ys ++ zs)
  Index-remove index index' ys x zs i same count =
      let (rest, absent, earlier) = Distinct-keys ys x zs i.distinct in
      record {
        finds = λ j. elim (Bool-cases (x.key == j)) [
          | inl here ↦
              same j
              ∙ ap (λ t. if t then none else VecMap.get index j) here
              ∙ sym (
                  find-absent j (ys ++ zs)
                    (subst (λ k. mem k (keys (ys ++ zs)) ≡ false) ((==_iff x.key j).0 here) absent))
          | inr other ↦
              same j
              ∙ if_ne x.key j _ _ other
              ∙ i.finds j
              ∙ find-middle j ys x zs earlier
              ∙ if_ne x.key j _ _ other
        ];
        distinct = rest;
        counted = omega (arith, count, i.counted, length-middle ys x zs);
      }

  pub Index-insert :
      (index index' : VecMap ℕ) (xs : List (Item V)) (x : Item V)
      → Index index xs
      → mem x.key (keys xs) ≡ false
      → ((j : ℕ) → VecMap.get index' j ≡ (if x.key == j then some x.addr else VecMap.get index j))
      → index'.n ≡ index.n + 1
      → Index index' (xs ++ x ∷ [])
  Index-insert index index' xs x i absent same count = record {
    finds = λ j.
        same j
        ∙ ap (λ o. if x.key == j then some x.addr else o)
            (i.finds j ∙ ap (find_addr j) (append_nil xs))
        ∙ sym (find-middle j xs x [] absent);
    distinct =
        subst Distinct (sym (keys-append xs (x ∷ [])))
          (Distinct-snoc (keys xs) x.key i.distinct absent);
    counted = omega (arith, count, i.counted, length-middle xs x [], ap length (append_nil xs));
  }

  -- An item moved to the end, with another value.
  pub Index-move :
      (index : VecMap ℕ) (ys : List (Item V)) (x : Item V) (zs : List (Item V)) (v : V)
      → Index index (ys ++ x ∷ zs)
      → Index index ((ys ++ zs) ++ record x { val = v } ∷ [])
  Index-move index ys x zs v i =
      let (rest, absent, earlier) = Distinct-keys ys x zs i.distinct in
      record {
        finds = λ j.
            i.finds j
            ∙ find-middle j ys x zs earlier
            ∙ ap (λ xs. if x.key == j then some x.addr else find_addr j xs) (append_nil (ys ++ zs))
            ∙ sym (find-middle j (ys ++ zs) (record x { val = v }) [] absent);
        distinct =
            subst Distinct (sym (keys-append (ys ++ zs) (record x { val = v } ∷ [])))
              (Distinct-snoc (keys (ys ++ zs)) x.key rest absent);
        counted = omega (
          arith,
          i.counted,
          length-middle ys x zs,
          length-middle (ys ++ zs) (record x { val = v }) [],
          ap length (append_nil (ys ++ zs)),
        );
      }
