-- ===== src/Backup/Mark/Impermanent.antt =====
-- backup_mark.go: when getBackupsToMarkImpermanent refuses, and that what it allows breaks nothing.
use mathlib.Core.Path.{subst}
use extract.Common.{
  ◌≡◌, refl, List, [], ◌∷◌, true, false, any, bytes_eq, bytes_eq_refl, bytes_eq→eq, Bool-cases,
  Option, none, some, Result, ok, err, Result-cases, ◌⊎◌, inl, inr, arith, ◌≢◌,
}
use extract.Backup.Mark.{
  Name, GenericMetadata, MetaInteractor, own_name, after_set, mark_all,
  get_backups_to_mark_impermanent, impermanent_of, links_of, add_link, other_than,
  backup_has_permanent_in_future, get_permanent_backups, permanent_names,
  get_graph_from_base_to_increment,
}
use extract.Backup.Mark.Laws.{IsMetaInteractor, IsClosed}

module _ {S E : Type 0} (i : MetaInteractor S E) where
  -- A listed permanent backup is among the permanent ones.
  permanent_listed :
      (s : S) (b : Name) (m : GenericMetadata E) (names : List Name)
      → i.fetch s b ≡ ok m
      → m.is_permanent ≡ true
      → any (bytes_eq b) names ≡ true
      → any (bytes_eq b) (permanent_names i s names) ≡ true
  unfolding permanent_names
  permanent_listed s b m [] f p h = h
  permanent_listed s b m (n ∷ names) f p h =
      ground (arith, permanent_listed s b m names f p, bytes_eq→eq b n, Result-cases (i.fetch s n))

  other_listed :
      (b n : Name) (names : List Name)
      → bytes_eq b n ≡ false
      → any (bytes_eq b) names ≡ true
      → any (bytes_eq b) (other_than i n names) ≡ true
  other_listed b n [] h k = k
  other_listed b n (x ∷ names) h k = ground (arith, other_listed b n names h, bytes_eq→eq b x)

  links_are :
      (s : S) (x : Name) (mx : GenericMetadata E) (from : Option Name) (names : List Name)
      (ls links : List (Name × Name))
      → i.fetch s x ≡ ok mx
      → mx.increment_details ≡ ok from
      → links_of i s names ≡ ok ls
      → links_of i s (x ∷ names) ≡ ok links
      → add_link i x from ls ≡ links
  unfolding links_of
  links_are s x mx from names ls links fx dx lx e = ground (arith, fx, dx, lx)

  -- The new link is the one that is looked for, or an old one is.
  IsNew : Name → Name → Option Name → List Name → Type 0
  IsNew x n from permanent = (from ≡ some n) × (any (bytes_eq x) permanent ≡ true)

  added :
      (x n : Name) (from : Option Name) (ls : List (Name × Name)) (permanent : List Name)
      → IsNew x n from permanent ⊎ (backup_has_permanent_in_future i ls n permanent ≡ true)
      → backup_has_permanent_in_future i (add_link i x from ls) n permanent ≡ true
  unfolding IsNew add_link backup_has_permanent_in_future
  added x n none ls permanent h = ground arith
  added x n (some from) ls permanent h = ground (arith, bytes_eq_refl n, bytes_eq_refl from)

  same_link :
      (s : S) (b n : Name) (m : GenericMetadata E) (x : Name) (mx : GenericMetadata E)
      (from : Option Name)
      → i.fetch s b ≡ ok m
      → m.increment_details ≡ ok (some n)
      → i.fetch s x ≡ ok mx
      → mx.increment_details ≡ ok from
      → b ≡ x
      → from ≡ some n
  same_link s b n m x mx from f d fx dx q = ground arith

  first_or_later :
      (s : S) (b n : Name) (m : GenericMetadata E) (x : Name) (mx : GenericMetadata E)
      (from : Option Name) (names : List Name) (ls : List (Name × Name)) (permanent : List Name)
      → i.fetch s b ≡ ok m
      → m.increment_details ≡ ok (some n)
      → any (bytes_eq b) (x ∷ names) ≡ true
      → i.fetch s x ≡ ok mx
      → mx.increment_details ≡ ok from
      → any (bytes_eq b) permanent ≡ true
      → (any (bytes_eq b) names ≡ true → backup_has_permanent_in_future i ls n permanent ≡ true)
      → IsNew x n from permanent ⊎ (backup_has_permanent_in_future i ls n permanent ≡ true)
  unfolding IsNew
  first_or_later s b n m x mx from names ls permanent f d h fx dx p later =
      elim (Bool-cases (bytes_eq b x)) [
        | inl q ↦ inl (
          same_link s b n m x mx from f d fx dx (bytes_eq→eq b x q),
          subst (λ y. any (bytes_eq y) permanent ≡ true) (bytes_eq→eq b x q) p,
        )
        | inr q ↦ inr (later (ground arith))
      ]

  -- The link of a listed increment that is permanent is found.
  link_found :
      (s : S) (b n : Name) (m : GenericMetadata E) (names : List Name) (links : List (Name × Name))
      (permanent : List Name)
      → i.fetch s b ≡ ok m
      → m.increment_details ≡ ok (some n)
      → any (bytes_eq b) names ≡ true
      → links_of i s names ≡ ok links
      → any (bytes_eq b) permanent ≡ true
      → backup_has_permanent_in_future i links n permanent ≡ true
  unfolding links_of add_link backup_has_permanent_in_future
  link_found s b n m [] links permanent f d h e p = cc
  link_found s b n m (x ∷ names) links permanent f d h e p = elim (Result-cases (i.fetch s x)) [
    | inl (z, fx) ↦ ground (arith, fx)
    | inr (mx, fx) ↦ elim (Result-cases mx.increment_details) [
      | inl (z, dx) ↦ ground (arith, fx, dx)
      | inr (from, dx) ↦ elim (Result-cases (links_of i s names)) [
        | inl (z, lx) ↦ ground (arith, fx, dx, lx)
        | inr (ls, lx) ↦
            subst (λ l. backup_has_permanent_in_future i l n permanent ≡ true)
              (links_are s x mx from names ls links fx dx lx e)
              (added x n from ls permanent (
                first_or_later s b n m x mx from names ls permanent f d h fx dx p
                  (λ k. link_found s b n m names ls permanent f d k lx p)))
      ]
    ]
  ]

  module _ (v : IsMetaInteractor i) where
    -- A permanent backup, other than `n`, that was made from `n` keeps `n` from being marked.
    pub get_backups_to_mark_impermanent-refuses :
        (s : S) (n b : Name) (m : GenericMetadata E) (names : List Name)
        → bytes_eq b n ≡ false
        → i.fetch s b ≡ ok m
        → m.is_permanent ≡ true
        → m.increment_details ≡ ok (some n)
        → ¬ (get_backups_to_mark_impermanent i s n ≡ ok names)
    unfolding get_backups_to_mark_impermanent impermanent_of get_graph_from_base_to_increment
        get_permanent_backups
    get_backups_to_mark_impermanent-refuses s n b m names o f p d e =
        elim (Result-cases (i.get_backups s)) [
          | inl (z, g) ↦ ground (arith, g, Result-cases (i.fetch s n))
          | inr (all_names, g) ↦ elim (Result-cases (links_of i s all_names)) [
            | inl (z, l) ↦ ground (arith, g, l, Result-cases (i.fetch s n))
            | inr (links, l) ↦
                let listed = v.fetch_listed s b m all_names f g in
                ground (
                  arith,
                  g,
                  l,
                  Result-cases (i.fetch s n),
                  link_found s b n m all_names links
                      (other_than i n (permanent_names i s all_names)) f d listed l
                      (other_listed b n (permanent_names i s all_names) o
                        (permanent_listed s b m all_names f p listed)),
                )
          ]
        ]

    allowed :
        (s : S) (n : Name) (names : List Name)
        → get_backups_to_mark_impermanent i s n ≡ ok names
        → (m : GenericMetadata E) × ((i.fetch s n ≡ ok m) × (names ≡ own_name false m))
    unfolding get_backups_to_mark_impermanent impermanent_of
    allowed s n names e = elim (Result-cases (i.fetch s n)) [
      | inl (z, f) ↦ ground (arith, f)
      | inr (m, f) ↦ (
        m,
        (
          f,
          elim (Result-cases (get_graph_from_base_to_increment i s)) [
            | inl (z, g) ↦ ground (arith, f, g)
            | inr (links, g) ↦ ground (arith, f, g)
          ],
        ),
      )
    ]

    set_impermanent-IsClosed :
        (s s' : S) (n : Name)
        → IsClosed i s
        → ((b : Name) (m : GenericMetadata E)
            → bytes_eq b n ≡ false
            → i.fetch s b ≡ ok m
            → m.is_permanent ≡ true
            → m.increment_details ≢ ok (some n))
        → i.set_is_permanent n false s ≡ ok s'
        → IsClosed i s'
    unfolding IsClosed
    set_impermanent-IsClosed s s' n closed free e b c m m' fb p d fc =
        elim (Result-cases (i.fetch s b)) [
          | inl (x, eb) ↦ ground (arith, v.fetch_set s s' n b false e)
          | inr (mb, eb) ↦ elim (Result-cases (i.fetch s c)) [
            | inl (x, ec) ↦ ground (arith, v.fetch_set s s' n c false e)
            | inr (mc, ec) ↦ ground (
              arith,
              v.fetch_set s s' n b false e,
              v.fetch_set s s' n c false e,
              bytes_eq→eq c n,
              closed b c mb mc eb,
              free b mb,
            )
          ]
        ]

    after_set-IsClosed :
        (s : S) (r : Result E S)
        → IsClosed i s
        → ((s' : S) → r ≡ ok s' → IsClosed i s')
        → IsClosed i (after_set i s r (λ t. (ok tt, t))).1
    after_set-IsClosed s (err e) c h = c
    after_set-IsClosed s (ok s') c h = h s' refl

    -- What getBackupsToMarkImpermanent allows keeps every base of a permanent backup permanent.
    pub mark_impermanent-IsClosed :
        (s : S) (n : Name) (names : List Name)
        → IsClosed i s
        → get_backups_to_mark_impermanent i s n ≡ ok names
        → IsClosed i (mark_all i names false s).1
    unfolding mark_all
    mark_impermanent-IsClosed s n names c e =
        let a = allowed s n names e in
        elim (Bool-cases a.0.is_permanent) [
          | inr p ↦ rw (a.1.1, p) c
          | inl p ↦
              rw (a.1.1, p, v.fetch_name s n a.0 a.1.0)
                (after_set-IsClosed s (i.set_is_permanent n false s) c (λ s' h.
                  set_impermanent-IsClosed s s' n c
                    (λ b m o f q d. get_backups_to_mark_impermanent-refuses s n b m names o f q d e)
                    h))
        ]
