-- ===== src/DeltaMap/Map/Exact.antt =====
-- The bitmap of a relation's file has exactly the blocks of that file among the added locations.
use extract.Common.{
  ℕ, ◌+◌, ◌-◌, ◌*◌, ◌%◌, ◌^◌, ◌≤◌, ◌<◌, ◌≡◌, refl, sym, ap, ◌∙◌, List, [], ◌∷◌, All, any, Bool,
  true, false, ltb, leb, ◌==◌, ◌&&◌, ◌||◌, if◌then◌else◌, Bool-cases, some, ok, inl, inr, arith,
}
use extract.Walparser.Location.{RelFileNode, BlockLocation, rel_file_node_eq}
use extract.DeltaMap.RelFile.{get_rel_file_node_from, get_rel_file_id_from}
use extract.DeltaMap.Bitmap.{BitmapOps, contains, IsBitmapOps}
use extract.DeltaMap.Map.{
  blocks_in_rel_file, PagedFileDeltaMap, lookup, add_location_to_delta, add_locations_to_delta,
  shift_blocks, select_rel_file_blocks, get_delta_bitmap_for,
}

shifted : ℕ → ℕ → ℕ
shifted first b = (b + 2 ^ 32 - first % 2 ^ 32) % 2 ^ 32

-- What every number of a list has, its head and its tail have.
All-of_any :
    {P : ℕ → Type 0} (xs : List ℕ) → ((x : ℕ) → any (λ y. y == x) xs ≡ true → P x) → All P xs
All-of_any [] h = tt
All-of_any (x ∷ xs) h = (h x (ground arith), All-of_any xs (λ y e. h y (ground (arith, e))))

-- Inside one file the shift is a bijection with the numbers below the size of a file.
any-shifted :
    (first y : ℕ) (xs : List ℕ)
    → first + blocks_in_rel_file ≤ 2 ^ 32
    → All (λ b. (first ≤ b) × (b < first + blocks_in_rel_file)) xs
    → any (λ b. shifted first b == y) xs
      ≡ (ltb y blocks_in_rel_file && any (λ b. b == y + first) xs)
unfolding shifted
any-shifted first y [] u h = ground arith
any-shifted first y (b ∷ xs) u ((l, m), h) =
    let e : (b + 2 ^ 32 - first % 2 ^ 32) % 2 ^ 32 ≡ b - first = omega (arith, u, l, m) in
    rw e (ground (arith, l, m, any-shifted first y xs u h))

module _ {B : Type 0} (o : BitmapOps B) (v : IsBitmapOps o) where
  contains-shift :
      (first y : ℕ) (blocks : List ℕ) (acc : B)
      → contains o (shift_blocks o first blocks acc) y
        ≡ (any (λ b. shifted first b == y) blocks || contains o acc y)
  unfolding shift_blocks shifted
  contains-shift first y [] acc = refl
  contains-shift first y (b ∷ blocks) acc =
      let n = (b + 2 ^ 32 - first % 2 ^ 32) % 2 ^ 32 in
      contains-shift first y blocks (o.add n acc)
      ∙ ap (λ t. any (λ c. shifted first c == y) blocks || t) (v.contains_add n acc y)
      ∙ swap (any (λ c. shifted first c == y) blocks) (n == y) (contains o acc y)
    where
      swap : (a b c : Bool) → (a || (b || c)) ≡ ((b || a) || c)
      swap a b c = ground arith

  -- SelectRelFileBlocks keeps the blocks of the file, counted from its first.
  pub contains-select :
      (bitmap : B) (id y : ℕ)
      → (id + 1) * blocks_in_rel_file ≤ 2 ^ 32
      → contains o (select_rel_file_blocks o bitmap id) y
        ≡ (ltb y blocks_in_rel_file && contains o bitmap (y + id * blocks_in_rel_file))
  unfolding select_rel_file_blocks
  contains-select bitmap id y u =
      let first = id * blocks_in_rel_file in
      let last = (id + 1) * blocks_in_rel_file in
      let of_file = o.add_range first last o.new in
      let blocks = o.iterate (o.and bitmap of_file) in
      let member : (x : ℕ)
          → any (λ b. b == x) blocks
            ≡ (contains o bitmap x && (leb first x && ltb x last || false)) =
        λ x.
          v.contains_and bitmap of_file x
          ∙ ap (λ t. contains o bitmap x && t)
              (v.contains_range first last o.new x
                ∙ ap (λ t. leb first x && ltb x last || t) (v.contains_new x)) in
      let within : All (λ b. (first ≤ b) × (b < first + blocks_in_rel_file)) blocks =
        All-of_any blocks
          (λ x e. in_range first last x (contains o bitmap x) (omega arith) (sym (member x) ∙ e)) in
      contains-shift first y blocks o.new
      ∙ ap (λ t. any (λ b. shifted first b == y) blocks || t) (v.contains_new y)
      ∙ or_false (any (λ b. shifted first b == y) blocks)
      ∙ any-shifted first y blocks (omega (arith, u)) within
      ∙ ap (λ t. ltb y blocks_in_rel_file && t) (member (y + first))
      ∙ drop_range first last y (contains o bitmap (y + first)) (omega arith)
    where
      in_range :
          (first last x : ℕ) (c : Bool)
          → last ≡ first + blocks_in_rel_file
          → (c && (leb first x && ltb x last || false)) ≡ true
          → (first ≤ x) × (x < first + blocks_in_rel_file)
      in_range first last x c l e = (ground (arith, l, e), ground (arith, l, e))

      or_false : (a : Bool) → (a || false) ≡ a
      or_false a = ground arith

      drop_range :
          (first last y : ℕ) (c : Bool)
          → last ≡ first + blocks_in_rel_file
          → (ltb y blocks_in_rel_file
              && (c && (leb first (y + first) && ltb (y + first) last || false)))
            ≡ (ltb y blocks_in_rel_file && c)
      drop_range first last y c l = ground (arith, l)

  -- Whether the map has a block of a relation, and whether it has the relation.
  pub in_map : RelFileNode → PagedFileDeltaMap B → ℕ → Bool
  in_map node [] x = false
  in_map node ((n, b) ∷ m) x = if rel_file_node_eq n node then contains o b x else in_map node m x

  has_relation : RelFileNode → PagedFileDeltaMap B → Bool
  has_relation node [] = false
  has_relation node ((n, b) ∷ m) = rel_file_node_eq n node || has_relation node m

  -- A location of a relation, and of one of its blocks.
  abbrev pub of_relation : RelFileNode → BlockLocation → Bool
  of_relation node l = rel_file_node_eq l.relation_file_node node

  abbrev pub of_block : RelFileNode → ℕ → BlockLocation → Bool
  of_block node x l = of_relation node l && l.block_no == x

  same_relation :
      (a b c : RelFileNode)
      → rel_file_node_eq a b ≡ true
      → rel_file_node_eq b c ≡ rel_file_node_eq a c
  same_relation a b c e = ground (arith, e)

  in_map-add :
      (node : RelFileNode) (l : BlockLocation) (m : PagedFileDeltaMap B) (x : ℕ)
      → in_map node (add_location_to_delta o l m) x ≡ (of_block node x l || in_map node m x)
  unfolding in_map add_location_to_delta
  in_map-add node l [] x =
      ap (λ t. if of_relation node l then t else false) (v.contains_of l.block_no x)
      ∙ as_or (of_relation node l) (l.block_no == x)
    where
      as_or : (r c : Bool) → (if r then c else false) ≡ (r && c || false)
      as_or r c = ground arith
  in_map-add node l ((n, b) ∷ m) x = elim (Bool-cases (rel_file_node_eq n l.relation_file_node)) [
    | inl e ↦
        rw (e, same_relation n l.relation_file_node node e)
          (ap (λ t. if rel_file_node_eq n node then t else in_map node m x)
              (v.contains_add l.block_no b x)
            ∙ in_both (rel_file_node_eq n node) (l.block_no == x) (contains o b x)
                (in_map node m x))
    | inr e ↦ elim (Bool-cases (rel_file_node_eq n node)) [
      | inl f ↦
          rw (e, f) (other (of_relation node l) (l.block_no == x) (contains o b x) (apart e f))
      | inr f ↦ rw (e, f) (in_map-add node l m x)
    ]
  ]
    where
      in_both : (r c d f : Bool) → (if r then (c || d) else f) ≡ (r && c || (if r then d else f))
      in_both r c d f = ground arith

      other : (r c d : Bool) → r ≡ false → d ≡ (r && c || d)
      other r c d e = ground (arith, e)

      apart :
          rel_file_node_eq n l.relation_file_node ≡ false
          → rel_file_node_eq n node ≡ true
          → rel_file_node_eq l.relation_file_node node ≡ false
      apart e f = ground (arith, e, f)

  has_relation-add :
      (node : RelFileNode) (l : BlockLocation) (m : PagedFileDeltaMap B)
      → has_relation node (add_location_to_delta o l m)
        ≡ (of_relation node l || has_relation node m)
  unfolding has_relation add_location_to_delta
  has_relation-add node l [] = refl
  has_relation-add node l ((n, b) ∷ m) =
      elim (Bool-cases (rel_file_node_eq n l.relation_file_node)) [
        | inl e ↦
            rw (e, same_relation n l.relation_file_node node e)
              (twice (rel_file_node_eq n node) (has_relation node m))
        | inr e ↦ rw e (
            ap (λ t. rel_file_node_eq n node || t) (has_relation-add node l m)
            ∙ swapped (rel_file_node_eq n node) (of_relation node l) (has_relation node m))
      ]
    where
      twice : (r c : Bool) → (r || c) ≡ (r || (r || c))
      twice r c = ground arith

      swapped : (r c d : Bool) → (r || (c || d)) ≡ (c || (r || d))
      swapped r c d = ground arith

  -- The same for a list of locations.
  pub in_map-adds :
      (node : RelFileNode) (ls : List BlockLocation) (m : PagedFileDeltaMap B) (x : ℕ)
      → in_map node (add_locations_to_delta o ls m) x
        ≡ (any (of_block node x) ls || in_map node m x)
  unfolding add_locations_to_delta
  in_map-adds node [] m x = refl
  in_map-adds node (l ∷ ls) m x =
      in_map-adds node ls (add_location_to_delta o l m) x
      ∙ ap (λ t. any (of_block node x) ls || t) (in_map-add node l m x)
      ∙ swapped (any (of_block node x) ls) (of_block node x l) (in_map node m x)
    where
      swapped : (r c d : Bool) → (r || (c || d)) ≡ ((c || r) || d)
      swapped r c d = ground arith

  has_relation-adds :
      (node : RelFileNode) (ls : List BlockLocation) (m : PagedFileDeltaMap B)
      → has_relation node (add_locations_to_delta o ls m)
        ≡ (any (of_relation node) ls || has_relation node m)
  unfolding add_locations_to_delta
  has_relation-adds node [] m = refl
  has_relation-adds node (l ∷ ls) m =
      has_relation-adds node ls (add_location_to_delta o l m)
      ∙ ap (λ t. any (of_relation node) ls || t) (has_relation-add node l m)
      ∙ swapped (any (of_relation node) ls) (of_relation node l) (has_relation node m)
    where
      swapped : (r c d : Bool) → (r || (c || d)) ≡ ((c || r) || d)
      swapped r c d = ground arith

  -- What the map gives for a relation.
  lookup-in_map :
      (node : RelFileNode) (m : PagedFileDeltaMap B)
      → has_relation node m ≡ true
      → (b : B) × (lookup o node m ≡ some b) × ((x : ℕ) → in_map node m x ≡ contains o b x)
  unfolding lookup in_map has_relation
  lookup-in_map node [] e = cc
  lookup-in_map node ((n, b) ∷ m) e = elim (Bool-cases (rel_file_node_eq n node)) [
    | inl f ↦ (b, rw f refl, (λ x. rw f refl))
    | inr f ↦ let (c, g, h) = lookup-in_map node m (rw f at e) in (c, rw f g, (λ x. rw f (h x)))
  ]

  -- The bitmap that GetDeltaBitmapFor gives for a file of a relation with changed blocks has exactly
  -- the blocks of that file among the locations that were added, counted from the first of the file. The
  -- path names the relation and the file's number, and the file's blocks have uint32 numbers.
  pub get_delta_bitmap_for-add :
      (file_path : List ℕ) (node : RelFileNode) (id : ℕ) (ls : List BlockLocation)
      → get_rel_file_node_from file_path ≡ ok node
      → get_rel_file_id_from file_path ≡ ok id
      → (id + 1) * blocks_in_rel_file ≤ 2 ^ 32
      → any (of_relation node) ls ≡ true
      → (b : B) × (get_delta_bitmap_for o file_path (add_locations_to_delta o ls []) ≡ ok b)
        × ((y : ℕ)
            → contains o b y
              ≡ (ltb y blocks_in_rel_file && any (of_block node (y + id * blocks_in_rel_file)) ls))
  unfolding get_delta_bitmap_for has_relation in_map
  get_delta_bitmap_for-add file_path node id ls names_node names_id u some_location =
      let m = add_locations_to_delta o ls [] in
      let (b, found, same) =
        lookup-in_map node m (has_relation-adds node ls [] ∙ ap (λ t. t || false) some_location) in
      (
        select_rel_file_blocks o b id,
        rw (names_node, found, names_id) refl,
        (λ y.
            contains-select b id y u
            ∙ ap (λ t. ltb y blocks_in_rel_file && t)
                (sym (same (y + id * blocks_in_rel_file))
                  ∙ in_map-adds node ls [] (y + id * blocks_in_rel_file)
                  ∙ or_false (any (of_block node (y + id * blocks_in_rel_file)) ls))),
      )
    where
      or_false : (a : Bool) → (a || false) ≡ a
      or_false a = ground arith
