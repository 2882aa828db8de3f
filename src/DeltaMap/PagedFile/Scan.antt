-- ===== src/DeltaMap/PagedFile/Scan.antt =====
-- pagefile.go with paged_file_delta_map.go: the bitmap that a file gets from its own scan.
use mathlib.Core.Path.{subst}
use extract.Common.{
  ℕ, zero, suc, ◌+◌, ◌*◌, ◌/◌, ◌^◌, ◌≤◌, ◌<◌, ◌≡◌, refl, sym, ap, ◌∙◌, List, [], ◌∷◌, length, keep,
  any, Bool, true, false, ltb, leb, ◌==◌, ◌&&◌, ◌||◌, Bool-cases, Result, ok, err, ◌>>=◌, chain_ok,
  inl, inr, arith,
}
use extract.Walparser.Location.{RelFileNode, BlockLocation, rel_file_node_eq, new_block_location}
use extract.Increment.PageHeader.{database_page_size, IncrementError}
use extract.Increment.Reader.{IncrementalPageReader, open_paged_file, full_scan_initialize}
use extract.Increment.Reader.Contents.{page_at}
use extract.Increment.Reader.Scan.{Scanned, has_changed, block_range, full_scan_initialize-Scanned}
use extract.DeltaMap.RelFile.{get_rel_file_node_from, get_rel_file_id_from}
use extract.DeltaMap.Bitmap.{BitmapOps, contains, IsBitmapOps}
use extract.DeltaMap.Map.{blocks_in_rel_file, add_locations_to_delta, get_delta_bitmap_for}
use extract.DeltaMap.Map.Exact.{of_relation, of_block, get_delta_bitmap_for-add}
use extract.DeltaMap.PagedFile.{
  locations_of, convert_blocks_to_locations, scanned, named, read_increment_locations,
}

-- A number is in a filtered range exactly if it is in the range and passes the test.
any-keep_range :
    (p : ℕ → Bool) (x b k : ℕ)
    → any (λ y. y == x) (keep p (block_range b k)) ≡ (leb b x && ltb x (b + k) && p x)
unfolding block_range
any-keep_range p x b zero = ground arith
any-keep_range p x b (suc k) = elim (Bool-cases (p b)) [
  | inl t ↦
      rw (t, any-keep_range p x (suc b) k) (kept (p x) (λ e. ap p (sym (ground (arith, e))) ∙ t))
  | inr f ↦
      rw (f, any-keep_range p x (suc b) k) (dropped (p x) (λ e. ap p (sym (ground (arith, e))) ∙ f))
]
  where
    kept :
        (q : Bool)
        → ((b == x) ≡ true → q ≡ true)
        → (b == x || leb (suc b) x && ltb x (suc b + k) && q) ≡ (leb b x && ltb x (b + suc k) && q)
    kept q h = elim (Bool-cases (b == x)) [
      | inl e ↦ rw (h e) (ground (arith, e))
      | inr e ↦ ground (arith, e)
    ]

    dropped :
        (q : Bool)
        → ((b == x) ≡ true → q ≡ false)
        → (leb (suc b) x && ltb x (suc b + k) && q) ≡ (leb b x && ltb x (b + suc k) && q)
    dropped q h = elim (Bool-cases (b == x)) [
      | inl e ↦ rw (h e) (ground (arith, e))
      | inr e ↦ ground (arith, e)
    ]

-- What the scan has listed.
scan_blocks :
    (file : List ℕ) (file_size lsn : ℕ) (s : IncrementalPageReader)
    → length file / database_page_size < 2 ^ 32
    → full_scan_initialize (open_paged_file file file_size lsn) ≡ ok s
    → s.blocks
      ≡ keep
          (λ i. has_changed lsn (page_at file i))
          (block_range 0 (length file / database_page_size))
unfolding Scanned open_paged_file
scan_blocks file file_size lsn s u e =
    let r = open_paged_file file file_size lsn in
    (subst (Scanned 0 (length file / database_page_size) r) e
      (full_scan_initialize-Scanned r refl u)).1

rel_file_node_eq_refl : (node : RelFileNode) → rel_file_node_eq node node ≡ true
rel_file_node_eq_refl node = ground arith

module _ {B : Type 0} (o : BitmapOps B) (v : IsBitmapOps o) where
  any-locations_of :
      (node : RelFileNode) (x : ℕ) (blocks : List ℕ)
      → any (of_block o v node x) (locations_of node blocks) ≡ any (λ y. y == x) blocks
  unfolding locations_of new_block_location
  any-locations_of node x [] = refl
  any-locations_of node x (b ∷ blocks) =
      rw (any-locations_of node x blocks) (own (rel_file_node_eq_refl node))
    where
      own :
          rel_file_node_eq node node ≡ true
          → ((rel_file_node_eq node node && b == x) || any (λ y. y == x) blocks)
            ≡ (b == x || any (λ y. y == x) blocks)
      own e = ap (λ t. (t && b == x) || any (λ y. y == x) blocks) e

  any-of_relation :
      (node : RelFileNode) (blocks : List ℕ) (l : BlockLocation) (ls : List BlockLocation)
      → l ∷ ls ≡ locations_of node blocks
      → any (of_relation o v node) (l ∷ ls) ≡ true
  unfolding locations_of new_block_location
  any-of_relation node [] l ls e = cc
  any-of_relation node (b ∷ blocks) l ls e =
      ap (any (of_relation o v node)) e
      ∙ ap (λ t. t || any (of_relation o v node) (locations_of node blocks))
          (rel_file_node_eq_refl node)

  named_locations :
      (file_path : List ℕ) (node : RelFileNode) (blocks : List ℕ) (ls : List BlockLocation)
      → get_rel_file_node_from file_path ≡ ok node
      → named (convert_blocks_to_locations file_path blocks) ≡ ok ls
      → ls ≡ locations_of node blocks
  unfolding convert_blocks_to_locations
  named_locations file_path node blocks ls e h =
      cc (ap (λ t. named (t >>= λ n. ok (locations_of n blocks))) e, h)

  -- Where the locations that the scan of a file finds are the only ones that were added, the bitmap for
  -- the file has block `y` exactly if the scan has listed the block `y` behind the start of the file's
  -- part of the relation: if that is a page of the file which is new or has changed since the position.
  pub get_delta_bitmap_for-scan :
      (file_path file : List ℕ) (file_size lsn : ℕ) (node : RelFileNode) (id : ℕ)
      (l : BlockLocation) (ls : List BlockLocation)
      → get_rel_file_node_from file_path ≡ ok node
      → get_rel_file_id_from file_path ≡ ok id
      → (id + 1) * blocks_in_rel_file ≤ 2 ^ 32
      → length file / database_page_size < 2 ^ 32
      → read_increment_locations file_path file file_size lsn ≡ ok (l ∷ ls)
      → (b : B) × (get_delta_bitmap_for o file_path (add_locations_to_delta o (l ∷ ls) []) ≡ ok b)
        × ((y : ℕ)
            → contains o b y ≡ (
                ltb y blocks_in_rel_file
                && (ltb (y + id * blocks_in_rel_file) (length file / database_page_size)
                    && has_changed lsn (page_at file (y + id * blocks_in_rel_file)))))
  unfolding read_increment_locations
  get_delta_bitmap_for-scan file_path file file_size lsn node id l ls names_node names_id u size e =
      let (s, ran, e1) =
        chain_ok (scanned (full_scan_initialize (open_paged_file file file_size lsn))) _ e in
      let ls_are = named_locations file_path node s.blocks (l ∷ ls) names_node e1 in
      let (b, found, same) =
        get_delta_bitmap_for-add o v file_path node id (l ∷ ls) names_node names_id u
          (any-of_relation node s.blocks l ls ls_are) in
      let blocks_are = scan_blocks file file_size lsn s size (scanned_ok _ s ran) in
      (
        b,
        found,
        λ y.
            same y
            ∙ ap (λ t. ltb y blocks_in_rel_file && t)
                (ap (any (of_block o v node (y + id * blocks_in_rel_file))) ls_are
                  ∙ any-locations_of node (y + id * blocks_in_rel_file) s.blocks
                  ∙ ap (any (λ z. z == y + id * blocks_in_rel_file)) blocks_are
                  ∙ any-keep_range (λ i. has_changed lsn (page_at file i))
                      (y + id * blocks_in_rel_file) 0 (length file / database_page_size)
                  ∙ from_zero (y + id * blocks_in_rel_file) (length file / database_page_size)
                      (has_changed lsn (page_at file (y + id * blocks_in_rel_file)))),
      )
    where
      from_zero : (x n : ℕ) (q : Bool) → (leb 0 x && ltb x (0 + n) && q) ≡ (ltb x n && q)
      from_zero x n q = ground arith

      scanned_ok :
          (r : Result IncrementError IncrementalPageReader) (s : IncrementalPageReader)
          → scanned r ≡ ok s
          → r ≡ ok s
      scanned_ok (ok a) s e = cc
      scanned_ok (err x) s e = cc
