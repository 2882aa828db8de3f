-- ===== src/Walparser/Totality/Steps.antt =====
-- Parsers that end and do not give back what they have read, and the steps that they are made of.
use extract.Common.{
  ℕ, zero, suc, ◌-◌, ◌≤◌, ◌<◌, ◌≡◌, ◌≢◌, refl, ap, ◌∙◌, List, [], ◌∷◌, ◌++◌, length, ◌==◌,
  if◌then◌else◌, Bool, true, false, some, Result, ok, err, arith, Option-cases, inl, inr,
}
use extract.Walparser.Readers.{
  ParseError, no_progress, Reader, bytes_reader, shrinkable_reader, aligned_reader, M, after, ◌>>=◌,
  ◌>>◌, pure, require, short_read, read_loop, read_full, of_bytes, parse_field,
}
use extract.Walparser.Totality.{Progress}

none_left : {n : ℕ} → ¬ (suc n ≤ 0)
none_left h = omega arith

pub err-injective :
    {A : Type 0} {x y : ParseError} → Path (Result ParseError A) (err x) (err y) → x ≡ y
err-injective e = cc

short_read-ends : (got : List ℕ) (e : ParseError) → e ≢ no_progress → short_read got e ≢ no_progress
short_read-ends [] e h = h
short_read-ends (b ∷ got) e h = ground arith

not_ok :
    {A B : Type 0} {x : ParseError} {s : B} {y : A} {t : B}
    → ¬ (Path (Result ParseError A × B) (err x, s) (ok y, t))
not_ok e = cc

-- A parser that ends and does not give back what it has read.
module _ {R : Type 0} {i : Reader R} (q : Progress i) where
  pub record Ends {A : Type 0} (r : Result ParseError A × R) (size : ℕ) : Type 0 where
    pub ended : r.0 ≢ err no_progress
    pub less : q.size r.1 ≤ size

  unfoldable pub Good : {A : Type 0} → M R A → Type 0
  Good m = (s : R) → Ends (m s) (q.size s)

  pub Ends-if :
      {A : Type 0} {n : ℕ} (b : Bool) (x y : Result ParseError A × R)
      → Ends x n
      → Ends y n
      → Ends (if b then x else y) n
  Ends-if true x y h k = h
  Ends-if false x y h k = k

  pub Ends-err :
      {A : Type 0} (e : ParseError) (s : R) (n : ℕ)
      → e ≢ no_progress
      → q.size s ≤ n
      → Ends {A = A} (err e, s) n
  Ends-err e s n h k = record { ended = λ z. h (err-injective z); less = k }

  pub Ends-ok : {A : Type 0} (a : A) (s : R) (n : ℕ) → q.size s ≤ n → Ends (ok a, s) n
  Ends-ok a s n k = record { ended = λ z. cc; less = k }

  pub Ends-weaken :
      {A : Type 0} (r : Result ParseError A × R) (m n : ℕ) → m ≤ n → Ends r m → Ends r n
  Ends-weaken r m n h e = record { ended = e.ended; less = omega (arith, h, e.less) }

  read_loop-Ends :
      (fuel need : ℕ) (got : List ℕ) (r : R)
      → need ≤ fuel
      → Ends (read_loop ⦃i = i⦄ fuel need got r) (q.size r)
  unfolding read_loop
  read_loop-Ends fuel zero got r h = Ends-ok got r (q.size r) (omega arith)
  read_loop-Ends zero (suc need) got r h = elim (none_left h) [ ]
  read_loop-Ends (suc fuel) (suc need) got r h = elim (Option-cases (i.read (suc need) r).1) [
    | inl z ↦
        rw (read_loop, z)
          (Ends-weaken _ (q.size (i.read (suc need) r).2) (q.size r)
            (omega (arith, q.shrinks (suc need) r))
            (read_loop-Ends fuel (suc need - length (i.read (suc need) r).0)
              (got ++ (i.read (suc need) r).0) (i.read (suc need) r).2
              (omega (arith, q.gives need r z))))
    | inr (e, z) ↦
        rw (read_loop, z)
          (Ends-if (suc need - length (i.read (suc need) r).0 == 0) _ _
            (Ends-ok _ (i.read (suc need) r).2 (q.size r) (omega (arith, q.shrinks (suc need) r)))
            (Ends-err _ (i.read (suc need) r).2 (q.size r)
              (short_read-ends (got ++ (i.read (suc need) r).0) e
                (λ w. q.no_stall (suc need) r (z ∙ ap some w)))
              (omega (arith, q.shrinks (suc need) r))))
  ]

  -- What is read to a given length costs a byte at least, where any is to be read.
  pub read_loop-less :
      (fuel need : ℕ) (got out : List ℕ) (r r' : R)
      → need ≤ fuel
      → read_loop ⦃i = i⦄ (suc fuel) (suc need) got r ≡ (ok out, r')
      → q.size r' < q.size r
  unfolding read_loop
  read_loop-less fuel need got out r r' h e = elim (Option-cases (i.read (suc need) r).1) [
    | inl z ↦
        let rest =
          read_loop-Ends fuel (suc need - length (i.read (suc need) r).0)
            (got ++ (i.read (suc need) r).0) (i.read (suc need) r).2
            (omega (arith, q.gives need r z)) in
        ground (arith, z, e, rest.less, q.gives need r z, q.shrinks (suc need) r)
    | inr (x, z) ↦ ground (arith, z, e, q.shrinks (suc need) r)
  ]

  pub read_full-Good : (n : ℕ) → Good (read_full ⦃i = i⦄ n)
  unfolding read_full Good
  read_full-Good n s = read_loop-Ends n n [] s (omega arith)

  pub pure-Good : {A : Type 0} (a : A) → Good (pure a)
  unfolding Good
  pure-Good a s = Ends-ok a s (q.size s) (omega arith)

  pub require-Good : (b : Bool) (e : ParseError) → e ≢ no_progress → Good (require b e)
  unfolding Good
  require-Good true e h s = Ends-ok tt s (q.size s) (omega arith)
  require-Good false e h s = Ends-err e s (q.size s) h (omega arith)

  pub result-Good :
      {A : Type 0} (r : Result ParseError A) → r ≢ err no_progress → Good (λ s. (r, s))
  unfolding Good
  result-Good r h s = record { ended = h; less = omega arith }

  pub after-Ends :
      {A B : Type 0} (r : Result ParseError A × R) (f : A → M R B) (n : ℕ)
      → Ends r n
      → ((a : A) → Good (f a))
      → Ends (after r f) n
  unfolding Good
  after-Ends (ok a, s) f n e g = Ends-weaken (f a s) (q.size s) n e.less (g a s)
  after-Ends (err x, s) f n e g = Ends-err x s n (λ w. e.ended (ap err w)) e.less

  pub bind-Good :
      {A B : Type 0} (m : M R A) (f : A → M R B) → Good m → ((a : A) → Good (f a)) → Good (m >>= f)
  unfolding Good
  bind-Good m f g h s = after-Ends (m s) f (q.size s) (g s) h

  pub then-Good : {B : Type 0} (m : M R (Unit {0})) (k : M R B) → Good m → Good k → Good (m >> k)
  then-Good m k g h = bind-Good m (λ _. k) g (λ _. h)

  pub parse_field-Good : (k : ℕ) → Good (parse_field ⦃i = i⦄ k)
  unfolding parse_field
  parse_field-Good k =
      bind-Good (read_full ⦃i = i⦄ k) _ (read_full-Good k) (λ s. pure-Good (of_bytes s))

  pub if-Good : {A : Type 0} (b : Bool) (x y : M R A) → Good x → Good y → Good (if b then x else y)
  if-Good true x y g h = g
  if-Good false x y g h = h

-- The steps of a chain of calls; `n` is what there was at its start.
module _ {R : Type 0} {i : Reader R} (q : Progress i) where
  pub step :
      {A B : Type 0} {r : Result ParseError A × R} {f : A → M R B} {n : ℕ}
      → Ends q r n
      → ((a : A) (s : R) → q.size s ≤ n → Ends q (f a s) n)
      → Ends q (after r f) n
  step {r = (ok a, s)} e g = g a s e.less
  step {r = (err x, s)} {n = n} e g = Ends-err q x s n (λ w. e.ended (ap err w)) e.less

  pub call : {A : Type 0} (m : M R A) {s : R} {n : ℕ} → Good q m → q.size s ≤ n → Ends q (m s) n
  unfolding Good
  call m {s = s} {n = n} g h = Ends-weaken q (m s) (q.size s) n h (g s)

  pub field : (k : ℕ) {s : R} {n : ℕ} → q.size s ≤ n → Ends q (parse_field ⦃i = i⦄ k s) n
  field k h = call (parse_field ⦃i = i⦄ k) (parse_field-Good q k) h

  pub check :
      (b : Bool) (e : ParseError) {s : R} {n : ℕ}
      → e ≢ no_progress
      → q.size s ≤ n
      → Ends q (require b e s) n
  check b e g h = call (require b e) (require-Good q b e g) h

-- What follows a field starts with less than what the field started with.
module _ {R : Type 0} {i : Reader R} (q : Progress i) where
  field_costs :
      (k n : ℕ) (s s' : R) → parse_field ⦃i = i⦄ (suc k) s ≡ (ok n, s') → q.size s' < q.size s
  unfolding parse_field read_full
  field_costs k n s s' e = costs (read_loop ⦃i = i⦄ (suc k) (suc k) [] s) refl e
    where
      costs :
          (r : Result ParseError (List ℕ) × R)
          → read_loop ⦃i = i⦄ (suc k) (suc k) [] s ≡ r
          → after r (λ t. pure (of_bytes t)) ≡ (ok n, s')
          → q.size s' < q.size s
      costs (ok out, t) z w =
          omega (arith, read_loop-less q k k [] out s t (omega arith) z, ap (λ r. q.size r.1) w)
      costs (err x, t) z w = elim (not_ok w) [ ]

  field_step :
      {B : Type 0} (k : ℕ) (s : R) (f : ℕ → M R B) (n : ℕ) (r : Result ParseError ℕ × R)
      → parse_field ⦃i = i⦄ (suc k) s ≡ r
      → Ends q r n
      → ((a : ℕ) (s' : R) → q.size s' < q.size s → Ends q (f a s') n)
      → Ends q (after r f) n
  field_step k s f n (ok a, s') z e g = g a s' (field_costs k a s s' z)
  field_step k s f n (err x, s') z e g = Ends-err q x s' n (λ w. e.ended (ap err w)) e.less

  -- A step that reads a field, after which there is less.
  pub step_less :
      {B : Type 0} (k : ℕ) (s : R) (f : ℕ → M R B) (n : ℕ)
      → q.size s ≤ n
      → ((a : ℕ) (s' : R) → q.size s' < q.size s → Ends q (f a s') n)
      → Ends q (after (parse_field ⦃i = i⦄ (suc k) s) f) n
  step_less k s f n h g =
      field_step k s f n (parse_field ⦃i = i⦄ (suc k) s) refl (field q (suc k) h) g

-- A parser that starts with a field costs a byte at least, where it succeeds.
module _ {R : Type 0} {i : Reader R} (q : Progress i) where
  pub costs_by_cases :
      {B : Type 0} (k : ℕ) (s : R) (f : ℕ → M R B) (r : Result ParseError ℕ × R) (b : B) (t : R)
      → parse_field ⦃i = i⦄ (suc k) s ≡ r
      → ((a : ℕ) → Good q (f a))
      → after r f ≡ (ok b, t)
      → q.size t < q.size s
  unfolding Good
  costs_by_cases k s f (ok a, s') b t z g e =
      omega (arith, field_costs q k a s s' z, (g a s').less, ap (λ r. q.size r.1) e)
  costs_by_cases k s f (err x, s') b t z g e = elim (not_ok e) [ ]

pub after-after :
    {R A B C : Type 0} (r : Result ParseError A × R) (f : A → M R B) (g : B → M R C)
    → after (after r f) g ≡ after r (λ a s. after (f a s) g)
after-after (ok a, s) f g = refl
after-after (err e, s) f g = refl

-- The same without the sizes.
pub after-ends :
    {R A B : Type 0} (r : Result ParseError A × R) (f : A → M R B)
    → r.0 ≢ err no_progress
    → ((a : A) (s : R) → (f a s).0 ≢ err no_progress)
    → (after r f).0 ≢ err no_progress
after-ends (ok a, s) f h g = g a s
after-ends (err x, s) f h g = λ w. h (ap err (err-injective w))
