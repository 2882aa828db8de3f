-- ===== src/Walparser/Totality/Records.antt =====
-- The parsers of a record's parts end.
use extract.Common.{
  ℕ, ◌≤◌, ◌≢◌, ltb, leb, Bool, true, false, Option, none, some, err, arith, Bool-cases, inl, inr,
}
use extract.Walparser.Readers.{
  no_progress, Reader, ShrinkableReader, bytes_reader, shrinkable_reader, shrink,
}
use extract.Walparser.Header.{XLogRecordHeader, check_consistency, read_xlog_record_header}
use extract.Walparser.Location.{RelFileNode}
use extract.Walparser.Block.{
  XLogRecordBlockImageHeader, is_compressed, has_hole, has_image, has_same_rel,
  hole_state_is_consistent, length_is_consistent, data_state_is_consistent, read_hole_length,
  read_image_header, read_rel_file_node, same_or_read, read_block_location, read_image_part,
  read_xlog_record_block_header,
}
use extract.Walparser.Totality.{Progress, shrinkable_progress}
use extract.Walparser.Totality.Steps.{
  Ends, Ends-ok, Ends-err, Ends-if, Good, step, call, field, check,
}

module _ {R : Type 0} {i : Reader R} (q : Progress i) where
  check_consistency-ends : (h : XLogRecordHeader) → check_consistency h ≢ err no_progress
  unfolding check_consistency
  check_consistency-ends h = ground arith

  pub read_xlog_record_header-Good : Good q (read_xlog_record_header ⦃i = i⦄)
  unfolding Good read_xlog_record_header
  read_xlog_record_header-Good s = step q (field q 4 (omega arith)) (λ _ _ h1.
      step q (field q 4 h1) (λ _ _ h2. step q (field q 8 h2) (λ _ _ h3.
        step q (field q 1 h3) (λ _ _ h4. step q (field q 1 h4) (λ _ _ h5.
          step q (field q 1 h5) (λ _ _ h6. step q (field q 1 h6) (λ _ _ h7.
            step q (field q 4 h7)
              (λ _ _ h8. record { ended = check_consistency-ends _; less = h8 }))))))))

  read_hole_length-Good : (h : XLogRecordBlockImageHeader) → Good q (read_hole_length ⦃i = i⦄ h)
  unfolding Good read_hole_length
  read_hole_length-Good h s = elim (Bool-cases (is_compressed h)) [
    | inr c ↦ rw c (Ends-ok q _ s (q.size s) (omega arith))
    | inl c ↦ elim (Bool-cases (has_hole h)) [
      | inr d ↦ rw (c, d) (Ends-ok q _ s (q.size s) (omega arith))
      | inl d ↦ rw (c, d) (step q (field q 2 (omega arith)) (λ _ t k. Ends-ok q _ t (q.size s) k))
    ]
  ]

  read_image_header-Good : Good q (read_image_header ⦃i = i⦄)
  unfolding Good read_image_header
  read_image_header-Good s = step q (field q 2 (omega arith)) (λ _ _ h1.
      step q (field q 2 h1) (λ _ _ h2. step q (field q 1 h2) (λ _ _ h3.
        step q (call q (read_hole_length ⦃i = i⦄ _) (read_hole_length-Good _) h3) (λ h _ h4.
          step q (check q (hole_state_is_consistent h) _ (λ e. cc) h4) (λ _ _ h5.
            step q (check q (length_is_consistent h) _ (λ e. cc) h5)
              (λ _ t h6. Ends-ok q h t (q.size s) h6))))))

  read_rel_file_node-Good : Good q (read_rel_file_node ⦃i = i⦄)
  unfolding Good read_rel_file_node
  read_rel_file_node-Good s = step q (field q 4 (omega arith)) (λ _ _ h1.
      step q (field q 4 h1)
        (λ _ _ h2. step q (field q 4 h2) (λ _ t h3. Ends-ok q _ t (q.size s) h3)))

  same_or_read-Good : (b : Bool) (last : Option RelFileNode) → Good q (same_or_read ⦃i = i⦄ b last)
  unfolding Good same_or_read
  same_or_read-Good false last s =
      call q (read_rel_file_node ⦃i = i⦄) read_rel_file_node-Good (omega arith)
  same_or_read-Good true none s = Ends-err q _ s (q.size s) (λ e. cc) (omega arith)
  same_or_read-Good true (some node) s = Ends-ok q node s (q.size s) (omega arith)

  read_block_location-Good :
      (b : Bool) (last : Option RelFileNode) → Good q (read_block_location ⦃i = i⦄ b last)
  unfolding Good read_block_location
  read_block_location-Good b last s =
      step q (call q (same_or_read ⦃i = i⦄ b last) (same_or_read-Good b last) (omega arith))
        (λ _ _ h1. step q (field q 4 h1) (λ _ t h2. Ends-ok q _ t (q.size s) h2))

module _ {R : Type 0} {i : Reader R} (q : Progress i) where
  pub shrink-Good : (n : ℕ) → Good (shrinkable_progress i q) (shrink n)
  unfolding Good shrink shrinkable_progress
  shrink-Good n s =
      Ends-if (shrinkable_progress i q) (ltb s.data_remained n) _ _
        (Ends-err (shrinkable_progress i q) _ s s.data_remained (λ e. cc) (omega arith))
        (Ends-ok (shrinkable_progress i q) tt _ s.data_remained (omega arith))

  pub shrinks_by :
      (n : ℕ) (s : ShrinkableReader R) {m : ℕ}
      → s.data_remained ≤ m
      → Ends (shrinkable_progress i q) (shrink n s) m
  unfolding shrinkable_progress
  shrinks_by n s h = call (shrinkable_progress i q) (shrink n) (shrink-Good n) h

  read_image_part-Good : (b : Bool) → Good (shrinkable_progress i q) (read_image_part ⦃i = i⦄ b)
  unfolding Good read_image_part shrinkable_progress
  read_image_part-Good false s = Ends-ok (shrinkable_progress i q) _ s s.data_remained (omega arith)
  read_image_part-Good true s =
      let p = shrinkable_progress i q in
      step p
        (call p (read_image_header ⦃i = shrinkable_reader ⦃i = i⦄⦄) (read_image_header-Good p)
          (omega arith))
        (λ h _ h1.
          step p (shrinks_by h.image_length _ h1) (λ _ t h2. Ends-ok p h t s.data_remained h2))

  pub read_xlog_record_block_header-Good :
      (last : Option RelFileNode) (block_id next_block_id : ℕ)
      → Good
          (shrinkable_progress i q)
          (read_xlog_record_block_header ⦃i = i⦄ last block_id next_block_id)
  unfolding Good read_xlog_record_block_header shrinkable_progress
  read_xlog_record_block_header-Good last block_id next_block_id s =
      let p = shrinkable_progress i q in
      step p (check p (leb block_id 32) _ (λ e. cc) (omega arith)) (λ _ _ h1.
        step p (check p (leb next_block_id block_id) _ (λ e. cc) h1) (λ _ _ h2.
          step p (field p 1 h2) (λ fork_flags _ h3. step p (field p 2 h3) (λ data_length _ h4.
            step p (check p (data_state_is_consistent fork_flags data_length) _ (λ e. cc) h4)
              (λ _ _ h5. step p (shrinks_by data_length _ h5) (λ _ _ h6.
                step p
                  (call p (read_image_part ⦃i = i⦄ (has_image fork_flags))
                    (read_image_part-Good (has_image fork_flags)) h6)
                  (λ _ _ h7.
                    step p
                      (call p
                        (read_block_location ⦃i = shrinkable_reader ⦃i = i⦄⦄
                          (has_same_rel fork_flags) last)
                        (read_block_location-Good p (has_same_rel fork_flags) last) h7)
                      (λ _ t h8. Ends-ok p _ t s.data_remained h8))))))))
