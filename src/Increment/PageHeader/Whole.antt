-- ===== src/Increment/PageHeader/Whole.antt =====
-- postgres_page_header.go: the header of a page is always read.
use extract.Common.{
  ℕ, ◌+◌, ◌≤◌, ◌≡◌, refl, sym, ap, ◌∙◌, List, length, take, drop, length-take, length-drop,
  take-drop, ok, arith,
}
use extract.Walparser.Readers.{M, ◌>>=◌, pure, read_full, parse_field, of_bytes, bytes_reader}
use extract.Walparser.Readers.Laws.{read_full-append, bind_ok}
use extract.Increment.PageHeader.{PageHeader, parse_postgres_page_header}

-- The parser succeeds on every input of `k` bytes at least.
Succeeds : {A : Type 0} → ℕ → M (List ℕ) A → Type 0
Succeeds {A} k m = (s : List ℕ) → k ≤ length s → (a : A) × (rest : List ℕ) × (m s ≡ (ok a, rest))

field_ok :
    (k : ℕ) (s : List ℕ) → k ≤ length s → parse_field k s ≡ (ok (of_bytes (take k s)), drop k s)
unfolding parse_field
field_ok k s h =
    bind_ok (read_full k) (λ t. pure (of_bytes t)) s
      (ap (read_full k) (sym (take-drop k s))
        ∙ read_full-append k (take k s) (drop k s) (length-take k s h))

field_then :
    {A : Type 0} (k j : ℕ) (f : ℕ → M (List ℕ) A)
    → ((v : ℕ) → Succeeds j (f v))
    → Succeeds (k + j) (parse_field k >>= f)
unfolding Succeeds
field_then k j f more s h =
    let (a, rest, e) = more (of_bytes (take k s)) (drop k s) (omega (arith, h, length-drop k s)) in
    (a, rest, bind_ok (parse_field k) f s (field_ok k s (omega (arith, h))) ∙ e)

header_Succeeds : Succeeds 24 parse_postgres_page_header
unfolding parse_postgres_page_header Succeeds
header_Succeeds = field_then 4 20 _ (λ a. field_then 4 16 _ (λ b. field_then 2 14 _ (λ c.
    field_then 2 12 _ (λ d. field_then 2 10 _ (λ e.
      field_then 2 8 _ (λ f. field_then 2 6 _ (λ g. field_then 2 4 _ (λ i s h. (_, s, refl)))))))))

-- The header of a whole page is read.
pub header_ok :
    (page : List ℕ)
    → 24 ≤ length page
    → (h : PageHeader) × ((parse_postgres_page_header page).0 ≡ ok h)
unfolding Succeeds
header_ok page l = let (h, rest, e) = header_Succeeds page l in (h, ap (λ p. p.0) e)
