-- ===== src/WalDelta/WalPartFile/RoundTrip.antt =====
-- wal_part_file.go: what Save writes is what LoadPartFile reads.
use mathlib.Core.Path.{subst}
use extract.Common.{
  ℕ, zero, suc, ◌+◌, ◌≤◌, ◌<◌, ◌^◌, ◌≡◌, ap, sym, ◌∙◌, refl, List, [], ◌∷◌, ◌++◌, length,
  length-append, ltb, set, replicate, All, true, Option, none, some, Result, ok, append_assoc,
  append-nil, arith,
}
use extract.Segment.{wal_file_in_delta}
use extract.Walparser.Readers.{parse_field, read_full, read_loop}
use extract.WalDelta.WalPart.{
  WalPart, IsWalPart, new_wal_part, previous_wal_head_type, wal_tail_type, wal_head_type,
  save_wal_part, save_wal_parts, load_wal_part, load_wal_part-save, length-save_wal_part,
}
use extract.WalDelta.WalPartFile.{
  PartFileError, WalPartFile, new_wal_part_file, parts_from, head_part, save_part_file, set_part,
  after_part, load_part_file_loop, load_part_file,
}

-- A part that is there is shorter than 4 GiB.
abbrev pub IsPart : Option (List ℕ) → Type 0
IsPart none = Unit {0}
IsPart (some s) = length s < 2 ^ 32

-- What NewWalPartFile makes and setPart keeps: 16 tails and 16 heads.
pub record IsWalPartFile (f : WalPartFile) : Type 0 where
  pub tails_length : length f.wal_tails ≡ wal_file_in_delta
  pub heads_length : length f.wal_heads ≡ wal_file_in_delta
  pub tails_bound : All IsPart f.wal_tails
  pub previous_bound : IsPart f.previous_wal_head
  pub heads_bound : All IsPart f.wal_heads

-- One round of the loop, at a part that was written.
load_next :
    (fuel : ℕ) (f f' : WalPartFile) (p : WalPart) (rest : List ℕ)
    → IsWalPart p
    → set_part f p ≡ ok f'
    → load_part_file_loop (suc fuel) f (save_wal_part p ++ rest) ≡ load_part_file_loop fuel f' rest
unfolding load_part_file_loop
load_next fuel f f' p rest v e =
    ap (λ x. after_part f x (λ g r. load_part_file_loop fuel g r)) (load_wal_part-save p rest v)
    ∙ rw (after_part, e) refl

set-append :
    (pre post : List (Option (List ℕ))) (v : Option (List ℕ))
    → set (pre ++ none ∷ post) (length pre) v ≡ pre ++ v ∷ post
set-append [] post v = refl
set-append (x ∷ pre) post v = ap (λ t. x ∷ t) (set-append pre post v)

append_one :
    (pre post : List (Option (List ℕ))) (v : Option (List ℕ))
    → pre ++ v ∷ post ≡ (pre ++ v ∷ []) ++ post
append_one pre post v = sym (append_assoc pre (v ∷ []) post)

length-one :
    (pre : List (Option (List ℕ))) (v : Option (List ℕ)) → length (pre ++ v ∷ []) ≡ suc (length pre)
length-one pre v = omega (arith, length-append pre (v ∷ []))

slot : (pre post : List (Option (List ℕ))) → ltb (length pre) (length (pre ++ none ∷ post)) ≡ true
slot pre post = ground (arith, length-append pre (none ∷ post))

set_tail :
    (f : WalPartFile) (pre post : List (Option (List ℕ))) (s : List ℕ)
    → f.wal_tails ≡ pre ++ none ∷ post
    → set_part f (new_wal_part wal_tail_type (length pre) s)
      ≡ ok (record f { wal_tails = (pre ++ some s ∷ []) ++ post })
unfolding set_part
set_tail f pre post s e =
    rw (e, slot pre post, set-append pre post (some s), append_one pre post (some s)) refl

set_head :
    (f : WalPartFile) (pre post : List (Option (List ℕ))) (s : List ℕ)
    → f.wal_heads ≡ pre ++ none ∷ post
    → set_part f (new_wal_part wal_head_type (length pre) s)
      ≡ ok (record f { wal_heads = (pre ++ some s ∷ []) ++ post })
unfolding set_part
set_head f pre post s e =
    rw (e, slot pre post, set-append pre post (some s), append_one pre post (some s)) refl

-- With any fuel that exceeds its bytes, the loop ends with `r`.
Loads : WalPartFile → List ℕ → Result PartFileError WalPartFile → Type 0
Loads f s r = (fuel : ℕ) → length s < fuel → load_part_file_loop fuel f s ≡ r

set_previous :
    (f : WalPartFile) (s : List ℕ)
    → set_part f (new_wal_part previous_wal_head_type 0 s)
      ≡ ok (record f { previous_wal_head = some s })
unfolding set_part
set_previous f s = refl

nothing_below : {n : ℕ} → ¬ (n < 0)
nothing_below h = omega arith

load_end : (f : WalPartFile) → Loads f [] (ok f)
unfolding Loads load_part_file_loop load_wal_part parse_field read_full read_loop
load_end f zero h = elim (nothing_below h) [ ]
load_end f (suc fuel) h = refl

load_part :
    (f f' : WalPartFile) (p : WalPart) (parts : List WalPart) (r : Result PartFileError WalPartFile)
    → IsWalPart p
    → set_part f p ≡ ok f'
    → Loads f' (save_wal_parts parts) r
    → Loads f (save_wal_parts (p ∷ parts)) r
unfolding Loads save_wal_parts
load_part f f' p parts r v e more zero h = elim (nothing_below h) [ ]
load_part f f' p parts r v e more (suc fuel) h =
    load_next fuel f f' p (save_wal_parts parts) v e
    ∙ more fuel (
        omega
          (arith, length-append (save_wal_part p) (save_wal_parts parts), length-save_wal_part p))

load_tails :
    (f : WalPartFile) (k : ℕ) (pre ts whole : List (Option (List ℕ))) (more : List WalPart)
    (r : Result PartFileError WalPartFile)
    → All IsPart ts
    → length pre ≡ k
    → k + length ts ≤ 256
    → f.wal_tails ≡ pre ++ replicate (length ts) none
    → pre ++ ts ≡ whole
    → Loads (record f { wal_tails = whole }) (save_wal_parts more) r
    → Loads f (save_wal_parts (parts_from wal_tail_type k ts ++ more)) r
unfolding parts_from
load_tails f k pre [] whole more r v l n e w next =
    subst (λ t. Loads (record f { wal_tails = t }) (save_wal_parts more) r) (sym (e ∙ w)) next
load_tails f k pre (none ∷ ts) whole more r (v, vs) l n e w next =
    load_tails f (suc k) (pre ++ none ∷ []) ts whole more r vs
      (omega (arith, l, length-one pre none)) (omega (arith, n))
      (e ∙ append_one pre (replicate (length ts) none) none) (sym (append_one pre ts none) ∙ w) next
load_tails f k pre (some s ∷ ts) whole more r (v, vs) l n e w next =
    let grown = pre ++ some s ∷ [] in
    load_part f (record f { wal_tails = grown ++ replicate (length ts) none })
      (new_wal_part wal_tail_type k s) (parts_from wal_tail_type (suc k) ts ++ more) r
      (record { data_type_bound = omega arith; id_bound = omega (arith, n); data_bound = v })
      (subst
        (λ i.
          set_part f (new_wal_part wal_tail_type i s)
          ≡ ok (record f { wal_tails = grown ++ replicate (length ts) none }))
        l (set_tail f pre (replicate (length ts) none) s e))
      (load_tails (record f { wal_tails = grown ++ replicate (length ts) none }) (suc k) grown ts
        whole more r vs (omega (arith, l, length-one pre (some s))) (omega (arith, n)) refl
        (sym (append_one pre ts (some s)) ∙ w) next)

load_heads :
    (f : WalPartFile) (k : ℕ) (pre ts whole : List (Option (List ℕ))) (more : List WalPart)
    (r : Result PartFileError WalPartFile)
    → All IsPart ts
    → length pre ≡ k
    → k + length ts ≤ 256
    → f.wal_heads ≡ pre ++ replicate (length ts) none
    → pre ++ ts ≡ whole
    → Loads (record f { wal_heads = whole }) (save_wal_parts more) r
    → Loads f (save_wal_parts (parts_from wal_head_type k ts ++ more)) r
unfolding parts_from
load_heads f k pre [] whole more r v l n e w next =
    subst (λ t. Loads (record f { wal_heads = t }) (save_wal_parts more) r) (sym (e ∙ w)) next
load_heads f k pre (none ∷ ts) whole more r (v, vs) l n e w next =
    load_heads f (suc k) (pre ++ none ∷ []) ts whole more r vs
      (omega (arith, l, length-one pre none)) (omega (arith, n))
      (e ∙ append_one pre (replicate (length ts) none) none) (sym (append_one pre ts none) ∙ w) next
load_heads f k pre (some s ∷ ts) whole more r (v, vs) l n e w next =
    let grown = pre ++ some s ∷ [] in
    load_part f (record f { wal_heads = grown ++ replicate (length ts) none })
      (new_wal_part wal_head_type k s) (parts_from wal_head_type (suc k) ts ++ more) r
      (record { data_type_bound = omega arith; id_bound = omega (arith, n); data_bound = v })
      (subst
        (λ i.
          set_part f (new_wal_part wal_head_type i s)
          ≡ ok (record f { wal_heads = grown ++ replicate (length ts) none }))
        l (set_head f pre (replicate (length ts) none) s e))
      (load_heads (record f { wal_heads = grown ++ replicate (length ts) none }) (suc k) grown ts
        whole more r vs (omega (arith, l, length-one pre (some s))) (omega (arith, n)) refl
        (sym (append_one pre ts (some s)) ∙ w) next)

load_previous :
    (f : WalPartFile) (previous : Option (List ℕ)) (more : List WalPart)
    (r : Result PartFileError WalPartFile)
    → IsPart previous
    → f.previous_wal_head ≡ none
    → Loads (record f { previous_wal_head = previous }) (save_wal_parts more) r
    → Loads f (save_wal_parts (head_part previous ++ more)) r
unfolding head_part
load_previous f none more r v e next =
    subst (λ t. Loads (record f { previous_wal_head = t }) (save_wal_parts more) r) (sym e) next
load_previous f (some s) more r v e next =
    load_part f (record f { previous_wal_head = some s }) (new_wal_part previous_wal_head_type 0 s)
      more r (record { data_type_bound = omega arith; id_bound = omega arith; data_bound = v })
      (set_previous f s) next

unfoldable with_tails : WalPartFile → WalPartFile
with_tails f = record new_wal_part_file { wal_tails = f.wal_tails }

unfoldable heads_missing : WalPartFile → WalPartFile
heads_missing f = record f { wal_heads = replicate wal_file_in_delta none }

Loads-heads :
    (f : WalPartFile)
    → IsWalPartFile f
    → Loads (heads_missing f) (save_wal_parts (parts_from wal_head_type 0 f.wal_heads)) (ok f)
unfolding heads_missing save_wal_parts
Loads-heads f v =
    subst (λ t. Loads (heads_missing f) (save_wal_parts t) (ok f)) (append-nil _)
      (load_heads (heads_missing f) 0 [] f.wal_heads f.wal_heads [] (ok f) v.heads_bound refl
        (omega (arith, v.heads_length)) (ap (λ n. replicate n none) (sym v.heads_length)) refl
        (load_end f))

Loads-previous :
    (f : WalPartFile)
    → IsWalPartFile f
    → Loads
        (with_tails f)
        (save_wal_parts (head_part f.previous_wal_head ++ parts_from wal_head_type 0 f.wal_heads))
        (ok f)
unfolding with_tails heads_missing new_wal_part_file
Loads-previous f v =
    load_previous (with_tails f) f.previous_wal_head (parts_from wal_head_type 0 f.wal_heads) (ok f)
      v.previous_bound refl (Loads-heads f v)

Loads-saved :
    (f : WalPartFile) → IsWalPartFile f → Loads new_wal_part_file (save_part_file f) (ok f)
unfolding with_tails save_part_file new_wal_part_file
Loads-saved f v =
    load_tails new_wal_part_file 0 [] f.wal_tails f.wal_tails
      (head_part f.previous_wal_head ++ parts_from wal_head_type 0 f.wal_heads) (ok f) v.tails_bound
      refl (omega (arith, v.tails_length)) (ap (λ n. replicate n none) (sym v.tails_length)) refl
      (Loads-previous f v)

-- What Save writes for a file of 16 tails and 16 heads, some of which may be missing and none of which
-- exceeds 4 GiB, is loaded by LoadPartFile as the same file.
pub load_part_file-save :
    (f : WalPartFile) → IsWalPartFile f → load_part_file (save_part_file f) ≡ ok f
unfolding load_part_file Loads
load_part_file-save f v = Loads-saved f v (suc (length (save_part_file f))) (omega arith)
