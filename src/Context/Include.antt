-- ===== src/Context/Include.antt =====
-- What one round of the selection loop keeps: the budget, and that each selected file is a part of
-- the repository's content.
use pr_reliability_platform.Prelude.{
  ℕ, ◌≤◌, Bool, true, false, some, List, [], ◌∷◌, ◌++◌, Text, join, nonempty, leb, take, length,
  All, Any, All-append, Any-append_left, Any-append_right, ◌⊎◌, inl, inr, ◌≡◌, ◌≢◌, refl, sym, ap,
  ◌∙◌, leb→le, Option, if_lem, not, not-false,
}
use mathlib.Core.Path.{subst}
use mathlib.Core.List.{append_assoc, append-nil}
use pr_reliability_platform.Context.Dependencies.{Node}
use pr_reliability_platform.Context.Paths.{Repository, lookup}
use pr_reliability_platform.Context.Prefix.{largest_lem}
use pr_reliability_platform.Context.Selector.{
  SelectionSource, SelectedFile, Progress, render_file, largest_prefix, include, include_whole,
  include_prefix,
}

join-append : (parts : List Text) (s : Text) → join (parts ++ s ∷ []) ≡ join parts ++ s
unfolding join
join-append [] s = append-nil s
join-append (t ∷ parts) s =
    ap (λ u. t ++ u) (join-append parts s) ∙ sym (append_assoc t (join parts) s)

-- A selected file holds the whole content of its path, or a nonempty prefix of it if it is marked
-- as truncated.
abbrev pub Faithful : Repository → SelectedFile → Type 0
Faithful repository f =
    (content : Text) × (lookup f.path repository ≡ some content)
    × (n : ℕ) × (f.content ≡ take n content)
    × (f.truncated ≡ false → f.content ≡ content)
    × (f.truncated ≡ true → f.content ≢ [])

-- The path was selected, or excluded as a file of this source.
abbrev pub Accounted : SelectionSource → Progress → Text → Type 0
Accounted source p path =
    Any (λ f. (f.path ≡ path) × (f.source ≡ source)) p.selected
    ⊎ Any (λ e. (e.path ≡ path) × (e.source ≡ source)) p.exclusions

selected_more :
    {A B : Type 0} (P : A → Type 0) (R : B → Type 0) (xs : List A) (ys : List B) (zs : List A)
    → Any P xs ⊎ Any R ys
    → Any P (xs ++ zs) ⊎ Any R ys
selected_more P R xs ys zs (inl h) = inl (Any-append_left P xs zs h)
selected_more P R xs ys zs (inr h) = inr h

excluded_more :
    {A B : Type 0} (P : A → Type 0) (R : B → Type 0) (xs : List A) (ys zs : List B)
    → Any P xs ⊎ Any R ys
    → Any P xs ⊎ Any R (ys ++ zs)
excluded_more P R xs ys zs (inl h) = inl h
excluded_more P R xs ys zs (inr h) = inr (Any-append_left R ys zs h)

nonempty-ne-nil : (s : Text) → nonempty s ≡ true → s ≢ []
nonempty-ne-nil [] h e = cc
nonempty-ne-nil (c ∷ s) h e = cc

take_all : (s : Text) → take (length s) s ≡ s
take_all [] = refl
take_all (c ∷ s) = ap (λ t. c ∷ t) (take_all s)

module _ (dumps : Text → Text → Bool → Text → Text) (matches : Text → Text → Bool)
    (parse : Text → Text → Option (List Node)) (token_counter : Text → ℕ) where
  -- The search ends with a prefix of the content, which fits unless it is empty.
  largest_prefix_total :
      (before path : Text) (source : SelectionSource) (content : Text) (token_budget : ℕ)
      → (prefix : Text) × (largest_prefix dumps matches parse token_counter before path source
            content token_budget
          ≡ some prefix)
        × ((n : ℕ) × (prefix ≡ take n content))
        × ((nonempty prefix ≡ true)
            → token_counter
                (before ++ render_file dumps matches parse token_counter path source prefix true)
              ≤ token_budget)
  unfolding largest_prefix
  largest_prefix_total before path source content token_budget =
      let fits : ℕ → Bool = λ middle.
        leb
          (token_counter (
            before
            ++ render_file dumps matches parse token_counter path source (take middle content)
                true))
          token_budget in
      let (n, e, inside, low, tight) = largest_lem fits (length content) in
      (
        take n content,
        simp e,
        (n, refl),
        λ h. elim low [
          | inl z ↦ absurd (nonempty-ne-nil _ h (ap (λ n. take n content) z))
          | inr f ↦ leb→le _ _ f
        ],
      )

  module _ (token_budget : ℕ) (repository : Repository) where
    pub record Kept (p : Progress) : Type 0 where
      pub within : token_counter (join p.rendered_parts) ≤ token_budget
      pub faithful : All (Faithful repository) p.selected

    abbrev round : Text → SelectionSource → Text → Progress → Option Progress
    round = include dumps matches parse token_counter token_budget

    abbrev rendering : Text → SelectionSource → Text → Bool → Text
    rendering = render_file dumps matches parse token_counter

    -- What one round does: it ends, keeps what is kept, and accounts for the file and all before.
    abbrev pub Advances : Text → SelectionSource → Progress → Progress → Type 0
    Advances path source p q =
        Kept q
        × Accounted source q path
        × ((s : SelectionSource) (x : Text) → Accounted s p x → Accounted s q x)

    abbrev pub Ends : Text → SelectionSource → Progress → Option Progress → Type 0
    Ends path source p o = (q : Progress) × (o ≡ some q) × Advances path source p q

    include_whole-Advances :
        (path : Text) (source : SelectionSource) (content : Text) (p : Progress)
        → lookup path repository ≡ some content
        → Kept p
        → leb
            (token_counter (join p.rendered_parts ++ rendering path source content false))
            token_budget
          ≡ true
        → Advances path source p
            (include_whole dumps matches parse token_counter path source content p)
    include_whole-Advances path source content p found k e = (
      record {
        within =
            subst (λ t. token_counter t ≤ token_budget) (sym (join-append p.rendered_parts _))
              (leb→le _ _ e);
        faithful =
            All-append (Faithful repository) p.selected _ k.faithful
              ((content, found, length content, sym (take_all content), (λ _. refl), λ h. cc), tt);
      },
      inl (Any-append_right _ p.selected _ (inl (refl, refl))),
      λ s x a. selected_more _ _ p.selected p.exclusions _ a,
    )

    include_prefix-Advances :
        (path : Text) (source : SelectionSource) (content : Text) (p : Progress) (prefix : Text)
        → lookup path repository ≡ some content
        → Kept p
        → (n : ℕ) × (prefix ≡ take n content)
        → (nonempty prefix ≡ true
            → token_counter (join p.rendered_parts ++ rendering path source prefix true)
              ≤ token_budget)
        → Advances path source p
            (include_prefix dumps matches parse token_counter path source content p prefix)
    include_prefix-Advances path source content p prefix found k taken fits =
        if_lem (Advances path source p) (not (nonempty prefix)) _ _
          (λ f. (
            record { within = k.within; faithful = k.faithful },
            inr (Any-append_right _ p.exclusions _ (inl (refl, refl))),
            λ s x a. excluded_more _ _ p.selected p.exclusions _ a,
          ))
          (λ f.
            let g = not-false _ f in
            (
              record {
                within =
                    subst (λ t. token_counter t ≤ token_budget)
                      (sym (join-append p.rendered_parts _)) (fits g);
                faithful =
                    All-append (Faithful repository) p.selected _ k.faithful
                      ((content, found, taken.0, taken.1, (λ h. cc), λ _. nonempty-ne-nil _ g), tt);
              },
              inl (Any-append_right _ p.selected _ (inl (refl, refl))),
              λ s x a. selected_more _ _ p.selected p.exclusions _ a,
            ))

    pub include-Ends :
        (path : Text) (source : SelectionSource) (content : Text) (p : Progress)
        → lookup path repository ≡ some content
        → Kept p
        → Ends path source p (round path source content p)
    unfolding include
    include-Ends path source content p found k =
        if_lem (Ends path source p)
          (leb (token_counter (join p.rendered_parts ++ rendering path source content false))
            token_budget)
          _ _ (λ e. (_, refl, include_whole-Advances path source content p found k e))
          (λ e.
            let (prefix, q, taken, fits) =
              largest_prefix_total (join p.rendered_parts) path source content token_budget in
            (
              include_prefix dumps matches parse token_counter path source content p prefix,
              rw q refl,
              include_prefix-Advances path source content p prefix found k taken fits,
            ))
