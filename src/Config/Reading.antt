-- ===== src/Config/Reading.antt =====
-- The loop over the command line's arguments (src/config/config.cpp) reads each as the table of the options
-- does.
use mathlib.Core.Path.{subst}
use ntonix.Common.{
  ◌≡◌, refl, sym, ◌∙◌, Bool, true, false, ◌||◌, List, [], ◌∷◌, ◌++◌, Option, none, some, arith,
  if◌then◌else◌, text_beq, text_beq_iff, Text, codes, starts_with, Bool-cases, ◌⊎◌, inl, inr, All,
}
use ntonix.Common.Search.{starts_with_sound}
use ntonix.Config.CommandLine.{
  CliOption, or_else, option_value, port, ssl_port, threads, bind_address, backend, unknown,
  after_prefix, one_of, classify,
}
use ntonix.Config.Given.{
  own_values, value_names, given_of, port_names, ssl_port_names, threads_names, bind_names,
  backends_names,
}

-- How the loop reads an argument
unfoldable pub read : Text → Option Text → CliOption × Bool
unfolding classify
read arg next =
    if one_of arg (codes "--help" ∷ codes "-h" ∷ [])
    then (unknown, false)
    else if one_of arg (codes "--config" ∷ codes "-c" ∷ [])
    then (unknown, true)
    else if starts_with (codes "--config=") arg || starts_with (codes "-c=") arg
    then (unknown, false)
    else classify arg next

after_prefix-none : (p s : Text) → starts_with p s ≡ false → after_prefix p s ≡ none
after_prefix-none [] s h = cc
after_prefix-none (c ∷ p) [] h = refl
after_prefix-none (c ∷ p) (d ∷ s) h = ground (arith, after_prefix-none p s)

module _ (P : Text → Type 0) where
  -- A property of an argument, by the texts that it may be
  names_intro :
      (arg : Text) (ts : List Text)
      → All P ts
      → (All (λ t. text_beq arg t ≡ false) ts → P arg)
      → P arg
  names_intro arg [] a other = other tt
  names_intro arg (t ∷ ts) a other = elim (Bool-cases (text_beq arg t)) [
    | inl same ↦ subst P (sym ((text_beq_iff arg t).0 same)) a.0
    | inr differs ↦ names_intro arg ts a.1 (λ rest. other (differs, rest))
  ]

  -- and by a prefix that it may have
  prefix_intro :
      (p arg : Text)
      → ((v : Text) → P (p ++ v))
      → (after_prefix p arg ≡ none → starts_with p arg ≡ false → P arg)
      → P arg
  prefix_intro p arg has other = elim (Bool-cases (starts_with p arg)) [
    | inl starts ↦ let (v, e) = starts_with_sound p arg starts in subst P (sym e) (has v)
    | inr differs ↦ other (after_prefix-none p arg differs) differs
  ]

-- The table gives what the loop reads, and tells whether the next argument is taken.
IsRead : Option Text → Text → Type 0
IsRead next arg =
    (own_values arg next ≡ given_of (read arg next).0)
    × ((next ≡ none) ⊎ (one_of arg value_names ≡ (read arg next).1))

named_none : All (IsRead none) (codes "--help" ∷ codes "-h" ∷ value_names)
unfolding IsRead read classify
named_none = (
  (refl, inl refl),
  (
    (refl, inl refl),
    (
      (refl, inl refl),
      (
        (refl, inl refl),
        (
          (refl, inl refl),
          (
            (refl, inl refl),
            (
              (refl, inl refl),
              (
                (refl, inl refl),
                ((refl, inl refl), ((refl, inl refl), ((refl, inl refl), ((refl, inl refl), tt)))),
              ),
            ),
          ),
        ),
      ),
    ),
  ),
)

named_some : (x : Text) → All (IsRead (some x)) (codes "--help" ∷ codes "-h" ∷ value_names)
unfolding IsRead read classify
named_some x = (
  (refl, inr refl),
  (
    (refl, inr refl),
    (
      (refl, inr refl),
      (
        (refl, inr refl),
        (
          (refl, inr refl),
          (
            (refl, inr refl),
            (
              (refl, inr refl),
              (
                (refl, inr refl),
                ((refl, inr refl), ((refl, inr refl), ((refl, inr refl), ((refl, inr refl), tt)))),
              ),
            ),
          ),
        ),
      ),
    ),
  ),
)

no_value :
    (names : List Text) (prefix arg : Text) (next : Option Text)
    → one_of arg names ≡ false
    → after_prefix prefix arg ≡ none
    → option_value names prefix arg next ≡ none
no_value names prefix arg next n p = rw (option_value, n) (rw p refl)

passes :
    (o : Option (Text × Bool)) (make : Text → CliOption) (other : CliOption × Bool)
    → o ≡ none
    → or_else o make other ≡ other
passes o make other e = rw e refl

-- An argument that is none of the names and has none of the prefixes
neither-classify :
    (next : Option Text) (arg : Text)
    → All (λ t. text_beq arg t ≡ false) (codes "--help" ∷ codes "-h" ∷ value_names)
    → after_prefix (codes "--port=") arg ≡ none
    → after_prefix (codes "--ssl-port=") arg ≡ none
    → after_prefix (codes "--threads=") arg ≡ none
    → after_prefix (codes "--bind=") arg ≡ none
    → after_prefix (codes "--backends=") arg ≡ none
    → classify arg next ≡ (unknown, false)
unfolding classify
neither-classify next arg
      (n0, (n1, (n2, (n3, (n4, (n5, (n6, (n7, (n8, (n9, (n10, (n11, e)))))))))))) p0 p1 p2 p3 p4 =
    passes _ port _ (no_value port_names (codes "--port=") arg next (simp (n4, n5) refl) p0)
    ∙ passes _ ssl_port _ (no_value ssl_port_names (codes "--ssl-port=") arg next (simp n6 refl) p1)
    ∙ passes _ threads _
        (no_value threads_names (codes "--threads=") arg next (simp (n7, n8) refl) p2)
    ∙ passes _ bind_address _
        (no_value bind_names (codes "--bind=") arg next (simp (n9, n10) refl) p3)
    ∙ passes _ backend _ (no_value backends_names (codes "--backends=") arg next (simp n11 refl) p4)

neither :
    (next : Option Text) (arg : Text)
    → All (λ t. text_beq arg t ≡ false) (codes "--help" ∷ codes "-h" ∷ value_names)
    → starts_with (codes "--config=") arg ≡ false
    → starts_with (codes "-c=") arg ≡ false
    → after_prefix (codes "--port=") arg ≡ none
    → after_prefix (codes "--ssl-port=") arg ≡ none
    → after_prefix (codes "--threads=") arg ≡ none
    → after_prefix (codes "--bind=") arg ≡ none
    → after_prefix (codes "--backends=") arg ≡ none
    → IsRead next arg
unfolding IsRead read
neither next arg (n0, (n1, (n2, (n3, (n4, (n5, (n6, (n7, (n8, (n9, (n10, (n11, e)))))))))))) c0 c1
      p0 p1 p2 p3 p4 =
    let unread =
      neither-classify next arg
        (n0, (n1, (n2, (n3, (n4, (n5, (n6, (n7, (n8, (n9, (n10, (n11, e)))))))))))) p0 p1 p2 p3
        p4 in
    simp (n0, n1, n2, n3, n4, n5, n6, n7, n8, n9, n10, n11, c0, c1, p0, p1, p2, p3, p4)
      (rw unread (refl, inr refl))

has_prefix_0 : (next : Option Text) (v : Text) → IsRead next (codes "--config=" ++ v)
unfolding IsRead read classify
has_prefix_0 none v = (refl, inl refl)
has_prefix_0 (some x) v = (refl, inr refl)

has_prefix_1 : (next : Option Text) (v : Text) → IsRead next (codes "-c=" ++ v)
unfolding IsRead read classify
has_prefix_1 none v = (refl, inl refl)
has_prefix_1 (some x) v = (refl, inr refl)

has_prefix_2 : (next : Option Text) (v : Text) → IsRead next (codes "--port=" ++ v)
unfolding IsRead read classify
has_prefix_2 none v = (refl, inl refl)
has_prefix_2 (some x) v = (refl, inr refl)

has_prefix_3 : (next : Option Text) (v : Text) → IsRead next (codes "--ssl-port=" ++ v)
unfolding IsRead read classify
has_prefix_3 none v = (refl, inl refl)
has_prefix_3 (some x) v = (refl, inr refl)

has_prefix_4 : (next : Option Text) (v : Text) → IsRead next (codes "--threads=" ++ v)
unfolding IsRead read classify
has_prefix_4 none v = (refl, inl refl)
has_prefix_4 (some x) v = (refl, inr refl)

has_prefix_5 : (next : Option Text) (v : Text) → IsRead next (codes "--bind=" ++ v)
unfolding IsRead read classify
has_prefix_5 none v = (refl, inl refl)
has_prefix_5 (some x) v = (refl, inr refl)

has_prefix_6 : (next : Option Text) (v : Text) → IsRead next (codes "--backends=" ++ v)
unfolding IsRead read classify
has_prefix_6 none v = (refl, inl refl)
has_prefix_6 (some x) v = (refl, inr refl)

prefixed :
    (next : Option Text) (arg : Text)
    → All (λ t. text_beq arg t ≡ false) (codes "--help" ∷ codes "-h" ∷ value_names)
    → IsRead next arg
prefixed next arg n =
    prefix_intro (IsRead next) (codes "--config=") arg (λ v. has_prefix_0 next v)
      (λ _ c0.
        prefix_intro (IsRead next) (codes "-c=") arg (λ v. has_prefix_1 next v)
          (λ _ c1.
            prefix_intro (IsRead next) (codes "--port=") arg (λ v. has_prefix_2 next v)
              (λ p0 _.
                prefix_intro (IsRead next) (codes "--ssl-port=") arg (λ v. has_prefix_3 next v)
                  (λ p1 _.
                    prefix_intro (IsRead next) (codes "--threads=") arg (λ v. has_prefix_4 next v)
                      (λ p2 _.
                        prefix_intro (IsRead next) (codes "--bind=") arg (λ v. has_prefix_5 next v)
                          (λ p3 _.
                            prefix_intro (IsRead next) (codes "--backends=") arg
                              (λ v. has_prefix_6 next v)
                              (λ p4 _. neither next arg n c0 c1 p0 p1 p2 p3 p4)))))))

pub read_lem :
    (arg : Text) (next : Option Text)
    → (own_values arg next ≡ given_of (read arg next).0)
      × ((next ≡ none) ⊎ (one_of arg value_names ≡ (read arg next).1))
unfolding IsRead
read_lem arg none =
    names_intro (IsRead none) arg (codes "--help" ∷ codes "-h" ∷ value_names) named_none
      (prefixed none arg)
read_lem arg (some x) =
    names_intro (IsRead (some x)) arg (codes "--help" ∷ codes "-h" ∷ value_names) (named_some x)
      (prefixed (some x) arg)
