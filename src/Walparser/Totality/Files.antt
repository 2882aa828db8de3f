-- ===== src/Walparser/Totality/Files.antt =====
-- The parsers of a whole record and of a list of locations end.
use extract.Common.{
  ℕ, zero, suc, ◌≤◌, ◌<◌, ◌≡◌, ◌≢◌, refl, ap, List, [], ◌∷◌, ◌++◌, length, ◌==◌, Bool, true, false,
  Result, ok, err, arith, Bool-cases, inl, inr,
}
use extract.Walparser.Readers.{
  ParseError, no_progress, ShrinkableReader, bytes_reader, shrinkable_reader, M, ◌>>=◌, pure,
  read_full, parse_field,
}
use extract.Walparser.Header.{XLogRecordHeader, read_xlog_record_header}
use extract.Walparser.Location.{
  new_block_location, BlockLocation, location_eq, terminal_location, read_next_location,
  read_locations_loop, read_locations_from, after_location, end_locations,
}
use extract.Walparser.Block.{read_xlog_record_block_header, has_image, has_data}
use extract.Walparser.Record.{
  XLogRecord, XLogRecordBlock, HeaderPart, read_header_item, read_header_items,
  read_xlog_record_block_header_part, read_if, read_blocks, read_xlog_record_body,
  parse_xlog_record,
}
use extract.Walparser.Totality.{Progress, bytes_progress, shrinkable_progress}
use extract.Walparser.Totality.Steps.{
  Ends, Ends-ok, Ends-if, Ends-weaken, Good, step, step_less, after-after, after-ends,
  costs_by_cases, err-injective, call, field, read_full-Good,
}
use extract.Walparser.Totality.Records.{
  shrinks_by, read_xlog_record_header-Good, read_xlog_record_block_header-Good,
}

abbrev part_progress : Progress (shrinkable_reader ⦃i = bytes_reader⦄)
part_progress = shrinkable_progress bytes_reader bytes_progress

read_header_item-Ends :
    (p : HeaderPart) (block_id : ℕ) (s : ShrinkableReader (List ℕ)) (n : ℕ)
    → s.data_remained ≤ n
    → Ends part_progress (read_header_item p block_id s) n
unfolding read_header_item shrinkable_progress
read_header_item-Ends p block_id s n h = elim (Bool-cases (block_id == 255)) [
  | inl a ↦ rw a (
      step part_progress (field part_progress 1 h) (λ m _ h1.
        step part_progress (shrinks_by bytes_progress m _ h1)
          (λ _ t h2. Ends-ok part_progress _ t n h2)))
  | inr a ↦ elim (Bool-cases (block_id == 254)) [
    | inl b ↦
        rw (a, b)
          (step part_progress (field part_progress 4 h) (λ m _ h1.
            step part_progress (shrinks_by bytes_progress m _ h1)
              (λ _ t h2. Ends-ok part_progress _ t n h2)))
    | inr b ↦ elim (Bool-cases (block_id == 253)) [
      | inl c ↦
          rw (a, b, c)
            (step part_progress (field part_progress 2 h)
              (λ m t h1. Ends-ok part_progress _ t n h1))
      | inr c ↦
          rw (a, b, c)
            (step part_progress
              (call part_progress
                (read_xlog_record_block_header p.last_rel_file_node block_id p.next_block_id)
                (read_xlog_record_block_header-Good bytes_progress p.last_rel_file_node block_id
                  p.next_block_id)
                h)
              (λ _ t h1. Ends-ok part_progress _ t n h1))
    ]
  ]
]

read_header_items-Ends :
    (fuel : ℕ) (p : HeaderPart) (s : ShrinkableReader (List ℕ)) (n : ℕ)
    → s.data_remained ≤ fuel
    → s.data_remained ≤ n
    → Ends part_progress (read_header_items fuel p s) n
unfolding read_header_items shrinkable_progress
read_header_items-Ends zero p s n h k =
    let z : (s.data_remained == 0) ≡ true = ground arith in rw z (Ends-ok part_progress p s n k)
read_header_items-Ends (suc fuel) p s n h k =
    Ends-if part_progress (s.data_remained == 0) _ _ (Ends-ok part_progress p s n k) (
      rw (after-after (parse_field 1 s) (read_header_item p) (read_header_items fuel)) (
        step_less part_progress 0 s _ n k (λ b t l.
          Ends-weaken part_progress _ t.data_remained n (omega (arith, l, k)) (
            step part_progress (read_header_item-Ends p b t t.data_remained (omega arith))
              (λ p' u m.
                read_header_items-Ends fuel p' u t.data_remained (omega (arith, h, l, m)) m)))))

items_end :
    (n : ℕ) (p : HeaderPart) (s : List ℕ)
    → (read_header_items n p (record { inner_reader = s; data_remained = n })).0 ≢ err no_progress
items_end n p s = (read_header_items-Ends n p _ n (omega arith) (omega arith)).ended

part_ends :
    (r : Result ParseError HeaderPart)
    → r ≢ err no_progress
    → Path
        (Result ParseError XLogRecord)
        (elim r [ ok p ↦ ok p.so_far | err e ↦ err e ])
        (err no_progress)
    → ⊥
part_ends (ok p) h e = cc
part_ends (err x) h e = h (ap err (err-injective e))

read_xlog_record_block_header_part-ends :
    (r : XLogRecord) (s : List ℕ) → (read_xlog_record_block_header_part r s).0 ≢ err no_progress
unfolding read_xlog_record_block_header_part
read_xlog_record_block_header_part-ends r s = part_ends _ (items_end _ _ s)

read_if-ends : (b : Bool) (n : ℕ) (s : List ℕ) → (read_if b n s).0 ≢ err no_progress
unfolding read_if Good
read_if-ends true n s = (read_full-Good bytes_progress n s).ended
read_if-ends false n s = λ e. cc

read_blocks-ends :
    (blocks : List XLogRecordBlock) (s : List ℕ) → (read_blocks blocks s).0 ≢ err no_progress
unfolding read_blocks
read_blocks-ends [] s = λ e. cc
read_blocks-ends (b ∷ blocks) s =
    after-ends (read_if (has_image b.header.fork_flags) b.header.image_header.image_length s) _
      (read_if-ends _ _ s)
      (λ _ t.
        after-ends (read_if (has_data b.header.fork_flags) b.header.data_length t) _
          (read_if-ends _ _ t)
          (λ _ u. after-ends (read_blocks blocks u) _ (read_blocks-ends blocks u) (λ _ w e. cc)))

read_xlog_record_body-ends :
    (h : XLogRecordHeader) (s : List ℕ) → (read_xlog_record_body h s).0 ≢ err no_progress
unfolding read_xlog_record_body Good
read_xlog_record_body-ends h s =
    after-ends (read_xlog_record_block_header_part _ s) _
      (read_xlog_record_block_header_part-ends _ s)
      (λ r t. after-ends (read_blocks r.blocks t) _ (read_blocks-ends r.blocks t) (λ _ u.
        after-ends (read_full r.main_data_len u) _
          (read_full-Good bytes_progress r.main_data_len u).ended (λ _ w e. cc)))

-- ParseXLogRecordFromBytes comes to an end on every input: with a record or with an error of the
-- program.
pub parse_xlog_record-ends : (s : List ℕ) → (parse_xlog_record s).0 ≢ err no_progress
unfolding parse_xlog_record Good
parse_xlog_record-ends s =
    after-ends (read_xlog_record_header s) _ (read_xlog_record_header-Good bytes_progress s).ended
      (λ h t. read_xlog_record_body-ends h t)

nothing_below : {n : ℕ} → ¬ (n < 0)
nothing_below h = omega arith

paired : {A : Type 0} (r : Result ParseError A × List ℕ) (a : A) → r.0 ≡ ok a → r ≡ (ok a, r.1)
paired (x, s) a e = ap (λ y. (y, s)) e

location_fields-Good :
    (spc_node : ℕ)
    → Good bytes_progress (do
      db_node ← parse_field 4
      rel_node ← parse_field 4
      block_no ← parse_field 4
      pure (new_block_location spc_node db_node rel_node block_no))
unfolding Good bytes_progress
location_fields-Good spc_node s =
    step bytes_progress (field bytes_progress 4 (omega arith)) (λ _ _ h1.
      step bytes_progress (field bytes_progress 4 h1) (λ _ _ h2.
        step bytes_progress (field bytes_progress 4 h2)
          (λ _ t h3. Ends-ok bytes_progress _ t (length s) h3)))

read_next_location-costs :
    (s : List ℕ) (l : BlockLocation) (t : List ℕ)
    → read_next_location s ≡ (ok l, t)
    → length t < length s
unfolding read_next_location bytes_progress
read_next_location-costs s l t e =
    costs_by_cases bytes_progress 3 s _ (parse_field 4 s) l t refl location_fields-Good e

read_next_location-ends : (s : List ℕ) → (read_next_location s).0 ≢ err no_progress
unfolding read_next_location bytes_progress Good
read_next_location-ends s =
    (step bytes_progress {n = length s} (field bytes_progress 4 (omega arith))
      (λ a t h. call bytes_progress _ (location_fields-Good a) h)).ended

end_locations-ends :
    (ls : List BlockLocation) (e : ParseError)
    → e ≢ no_progress
    → end_locations ls e ≢ err no_progress
end_locations-ends ls e h = ground arith

after_location-ends :
    (r : Result ParseError BlockLocation × List ℕ) (ls : List BlockLocation)
    (more : List BlockLocation → M (List ℕ) (List BlockLocation))
    → r.0 ≢ err no_progress
    → ((l : BlockLocation) → r.0 ≡ ok l → (more (ls ++ l ∷ []) r.1).0 ≢ err no_progress)
    → (after_location r ls more).0 ≢ err no_progress
after_location-ends (err e, s) ls more h g = end_locations-ends ls e (λ w. h (ap err w))
after_location-ends (ok l, s) ls more h g = elim (Bool-cases (location_eq l terminal_location)) [
  | inl b ↦ rw (after_location, b) (λ e. cc)
  | inr b ↦ rw (after_location, b) (g l refl)
]

read_locations_loop-ends :
    (fuel : ℕ) (ls : List BlockLocation) (s : List ℕ)
    → length s < fuel
    → (read_locations_loop fuel ls s).0 ≢ err no_progress
unfolding read_locations_loop
read_locations_loop-ends zero ls s h = elim (nothing_below h) [ ]
read_locations_loop-ends (suc fuel) ls s h =
    after_location-ends (read_next_location s) ls _ (read_next_location-ends s) (λ l e.
      read_locations_loop-ends fuel (ls ++ l ∷ []) (read_next_location s).1
        (omega (arith, h, read_next_location-costs s l (read_next_location s).1 (paired _ l e))))

-- ReadLocationsFrom comes to an end on every input: with the locations or with an error of the program.
pub read_locations_from-ends : (s : List ℕ) → (read_locations_from s).0 ≢ err no_progress
unfolding read_locations_from
read_locations_from-ends s = read_locations_loop-ends (suc (length s)) [] s (omega arith)
