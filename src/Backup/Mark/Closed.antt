-- ===== src/Backup/Mark/Closed.antt =====
-- backup_mark.go: marking keeps every backup that a permanent backup was made from permanent.
use mathlib.Core.Path.{subst}
use extract.Common.{
  ℕ, zero, suc, ◌≡◌, refl, sym, ap, ◌∙◌, List, [], ◌∷◌, ◌++◌, true, bytes_eq→eq, Bool-cases, Option,
  none, some, Result, ok, err, Result-cases, inl, inr, arith,
}
use extract.Backup.Mark.{
  Name, GenericMetadata, MetaInteractor, MarkError, own_name, then_ok, lift, after_set, mark_all,
  with_previous, permanent_of, get_backups_to_mark_permanent,
}
use extract.Backup.Mark.Laws.{
  IsMetaInteractor, IsClosed, HasPermanentBase, Grows, Grows-refl, Grows-trans, stays_permanent,
  keeps_details, set-Grows, set-permanent,
}

module _ {S E : Type 0} (i : MetaInteractor S E) (v : IsMetaInteractor i) where
  set-IsClosed :
      (s s' : S) (n : Name)
      → IsClosed i s
      → HasPermanentBase i s n
      → i.set_is_permanent n true s ≡ ok s'
      → IsClosed i s'
  unfolding IsClosed HasPermanentBase
  set-IsClosed s s' n closed base e b c m m' fb p d fc = elim (Result-cases (i.fetch s b)) [
    | inl (x, eb) ↦ ground (arith, v.fetch_set s s' n b true e)
    | inr (mb, eb) ↦ elim (Result-cases (i.fetch s c)) [
      | inl (x, ec) ↦ ground (arith, v.fetch_set s s' n c true e)
      | inr (mc, ec) ↦ ground (
        arith,
        v.fetch_set s s' n b true e,
        v.fetch_set s s' n c true e,
        bytes_eq→eq b n,
        closed b c mb mc eb,
        base c mb mc,
      )
    ]
  ]

  -- After a loop that started with `s` and was to mark `n`.
  pub record Marked (s : S) (n : Name) (r : Result (MarkError E) (Unit {0}) × S) : Type 0 where
    pub closed : IsClosed i s → IsClosed i r.1
    pub grows : Grows i s r.1
    pub permanent :
        r.0 ≡ ok tt → (m : GenericMetadata E) → i.fetch r.1 n ≡ ok m → m.is_permanent ≡ true

  after_own :
      (s s' : S) (n : Name)
      → (IsClosed i s → IsClosed i s')
      → Grows i s s'
      → HasPermanentBase i s' n
      → (r : Result E S) → i.set_is_permanent n true s' ≡ r
      → Marked s n (after_set i s' r (λ t. (ok tt, t)))
  after_own s s' n c g base (err e) h = record { closed = c; grows = g; permanent = λ x m e'. cc }
  after_own s s' n c g base (ok t) h = record {
    closed = λ k. set-IsClosed s' t n (c k) base h;
    grows = Grows-trans i s s' t g (set-Grows i v s' t n h);
    permanent = λ _ m f. set-permanent i v s' t n m h f;
  }

  base_marked :
      (s s' : S) (n from : Name) (m : GenericMetadata E)
      → i.fetch s n ≡ ok m
      → m.increment_details ≡ ok (some from)
      → Grows i s s'
      → ((m' : GenericMetadata E) → i.fetch s' from ≡ ok m' → m'.is_permanent ≡ true)
      → HasPermanentBase i s' n
  unfolding HasPermanentBase
  base_marked s s' n from m f d g p c m' mc f' d' fc =
      ground (arith, keeps_details i s s' n m m' g f f', p mc)

  own-Marked :
      (s s' : S) (n : Name) (m : GenericMetadata E)
      → (IsClosed i s → IsClosed i s')
      → Grows i s s'
      → HasPermanentBase i s' n
      → i.fetch s n ≡ ok m
      → Marked s n (mark_all i (own_name true m) true s')
  unfolding mark_all
  own-Marked s s' n m c g base e = elim (Bool-cases m.is_permanent) [
    | inl p ↦ rw p (record {
      closed = c;
      grows = g;
      permanent = λ _ m' e'. stays_permanent i s s' n m m' g e e' p;
    })
    | inr p ↦ rw (p, v.fetch_name s n m e) (after_own s s' n c g base _ refl)
  ]

  abbrev continue :
      Result (MarkError E) (Unit {0}) × S
      → (S → Result (MarkError E) (Unit {0}) × S)
      → Result (MarkError E) (Unit {0}) × S
  continue (ok _, s) f = f s
  continue (err e, s) f = (err e, s)

  mark_all-append :
      (xs ys : List Name) (s : S)
      → mark_all i (xs ++ ys) true s ≡ continue (mark_all i xs true s) (λ t. mark_all i ys true t)
  unfolding mark_all
  mark_all-append [] ys s = refl
  mark_all-append (x ∷ xs) ys s = elim (Result-cases (i.set_is_permanent x true s)) [
    | inl (e, h) ↦ rw h refl
    | inr (t, h) ↦ rw h (mark_all-append xs ys t)
  ]

  -- The backup that the increment `n` was made from has been marked.
  after_base :
      (s : S) (n from : Name) (m : GenericMetadata E) (r : Result (MarkError E) (Unit {0}) × S)
      → i.fetch s n ≡ ok m
      → m.increment_details ≡ ok (some from)
      → Marked s from r
      → Marked s n (continue r (λ t. mark_all i (own_name true m) true t))
  after_base s n from m (err e, t) f d h = record {
    closed = h.closed;
    grows = h.grows;
    permanent = λ x m e'. cc;
  }
  after_base s n from m (ok _, t) f d h =
      own-Marked s t n m h.closed h.grows (base_marked s t n from m f d h.grows (h.permanent refl))
        f

  ok-injective : {A : Type 0} {x y : A} → Path (Result (MarkError E) A) (ok x) (ok y) → x ≡ y
  ok-injective e = cc

  no_error : {A : Type 0} {x : A} {z : MarkError E} → ¬ (err z ≡ ok x)
  no_error e = cc

  appended :
      {x : Result (MarkError E) (List Name)} {names : List Name} (previous : List Name)
      (m : GenericMetadata E)
      → then_ok x (λ ns. ok (ns ++ own_name true m)) ≡ ok names
      → x ≡ ok previous
      → previous ++ own_name true m ≡ names
  appended previous m e h =
      ok-injective (sym (ap (λ r. then_ok r (λ ns. ok (ns ++ own_name true m))) h) ∙ e)

  abbrev detailed :
      ℕ → S → GenericMetadata E → Result E (Option Name) → Result (MarkError E) (List Name)
  detailed fuel s m r =
      then_ok (lift r)
        (λ from. with_previous i (λ f. get_backups_to_mark_permanent i fuel s f) m from)

  abbrev fetched : ℕ → S → Result E (GenericMetadata E) → Result (MarkError E) (List Name)
  fetched fuel s r =
      then_ok (lift r) (λ m. permanent_of i (λ f. get_backups_to_mark_permanent i fuel s f) m)

  -- The metadata has been fetched, and says what the backup was made from.
  Marked-from :
      (fuel : ℕ) (s : S) (n : Name) (m : GenericMetadata E) (from : Option Name) (names : List Name)
      → ((f : Name) (ns : List Name)
          → get_backups_to_mark_permanent i fuel s f ≡ ok ns
          → Marked s f (mark_all i ns true s))
      → i.fetch s n ≡ ok m
      → m.increment_details ≡ ok from
      → with_previous i (λ f. get_backups_to_mark_permanent i fuel s f) m from ≡ ok names
      → Marked s n (mark_all i names true s)
  unfolding with_previous HasPermanentBase
  Marked-from fuel s n m none names rec f d e =
      subst (λ ns. Marked s n (mark_all i ns true s)) (ok-injective e)
        (own-Marked s s n m (λ k. k) (Grows-refl i s) (λ c' m' mc f' d' fc. cc) f)
  Marked-from fuel s n m (some from) names rec f d e =
      elim (Result-cases (get_backups_to_mark_permanent i fuel s from)) [
        | inl (x, h) ↦ ground (arith, h)
        | inr (previous, h) ↦
            subst (λ ns. Marked s n (mark_all i ns true s)) (appended previous m e h)
              (subst (λ r. Marked s n r) (sym (mark_all-append previous (own_name true m) s))
                (after_base s n from m (mark_all i previous true s) f d (rec from previous h)))
      ]

  pub permanent-Marked :
      (fuel : ℕ) (s : S) (n : Name) (names : List Name)
      → get_backups_to_mark_permanent i fuel s n ≡ ok names
      → Marked s n (mark_all i names true s)
  unfolding get_backups_to_mark_permanent permanent_of
  permanent-Marked zero s n names e = elim (no_error e) [ ]
  permanent-Marked (suc fuel) s n names e = elim (Result-cases (i.fetch s n)) [
    | inl (x, f) ↦ elim (no_error (sym (ap (λ r. fetched fuel s r) f) ∙ e)) [ ]
    | inr (m, f) ↦ elim (Result-cases m.increment_details) [
      | inl (x, d) ↦
          elim (no_error
            (sym (ap (λ r. fetched fuel s r) f ∙ ap (λ r. detailed fuel s m r) d) ∙ e)) [ ]
      | inr (from, d) ↦
          Marked-from fuel s n m from names (λ g ns. permanent-Marked fuel s g ns) f d
            (sym (ap (λ r. fetched fuel s r) f ∙ ap (λ r. detailed fuel s m r) d) ∙ e)
    ]
  ]
