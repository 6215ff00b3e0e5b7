-- ===== src/Server/Requests/Tags.antt =====
-- What `normalizeTags` of internal/testserver/testserver.go lets through.
use hush_hush_cli.Prelude.{
  String, ◌≡◌, refl, sym, ap, ◌∙◌, true, ◌||◌, List, [], ◌∷◌, ◌++◌, arith, eq_iff, ◌==◌,
  if◌then◌else◌, ok, All, All-append, Bool-cases, inl, inr, length, ◌≤◌, ltb, >>=-eq-ok,
  ok-injective, subst, map,
}
use hush_hush_cli.Prelude.Text.{member, to_lower}
use hush_hush_cli.Prelude.Members.{Unique, Unique-snoc, member-append}
use hush_hush_cli.Server.Requests.{is_tag, max_tags, normalize_from, normalize_tags}

-- Tags of the form that the server wants, none of them twice.
abbrev pub AreTags : List String → Type 0
AreTags tags = All (λ t. is_tag t ≡ true) tags × Unique tags

kept : String → List String → List String
kept tag out = if member tag out then out else out ++ tag ∷ []

kept-AreTags :
    (tag : String) (out : List String) → is_tag tag ≡ true → AreTags out → AreTags (kept tag out)
unfolding kept
kept-AreTags tag out good (h, u) = elim (Bool-cases (member tag out)) [
  | inl old ↦ rw old (h, u)
  | inr new ↦ rw new (All-append _ out (tag ∷ []) h (good, tt), Unique-snoc out tag u new)
]

member-kept :
    (x tag : String) (out : List String) → member x (kept tag out) ≡ (member x out || tag == x)
unfolding kept member
member-kept x tag out = ground (arith, eq_iff tag x, member-append x out (tag ∷ []))

normalize_from_sound :
    (out tags r : List String)
    → normalize_from out tags ≡ ok r
    → AreTags out
    → AreTags r × ((x : String) → member x r ≡ (member x out || member x (map to_lower tags)))
unfolding normalize_from member kept
normalize_from_sound out [] r h k =
    let same : out ≡ r = ok-injective h in
    (subst AreTags same k, λ x. ap (member x) (sym same) ∙ ground arith)
normalize_from_sound out (t ∷ tags) r h k = elim (Bool-cases (is_tag (to_lower t))) [
  | inl good ↦
      let (valid, same) =
        normalize_from_sound (kept (to_lower t) out) tags r (ground arith)
          (kept-AreTags (to_lower t) out good k) in
      (valid, λ x. ground (arith, same x, member-kept x (to_lower t) out))
  | inr bad ↦ ground arith
]

-- The tags that are let through are ten at most, each of the form wanted and none twice, and they are
-- the tags given, in lower case.
pub normalize_tags_sound :
    (tags out : List String)
    → normalize_tags tags ≡ ok out
    → (length out ≤ max_tags)
      × AreTags out
      × ((x : String) → member x out ≡ member x (map to_lower tags))
unfolding normalize_tags member
normalize_tags_sound tags out h =
    let (r, from, within) = >>=-eq-ok (normalize_from [] tags) _ h in
    let (valid, same) = normalize_from_sound [] tags r from (tt, tt) in
    elim (Bool-cases (ltb max_tags (length r))) [
      | inl many ↦ ground arith
      | inr few ↦
          let e : r ≡ out = ok-injective (rw few at within) in
          (
            subst (λ l. length l ≤ max_tags) e (ground arith),
            subst AreTags e valid,
            λ x. ap (member x) (sym e) ∙ same x,
          )
    ]

-- The loop goes through when each tag, in lower case, is of the form wanted.
normalize_from_complete :
    (out tags : List String)
    → All (λ t. is_tag (to_lower t) ≡ true) tags
    → (r : List String) × (normalize_from out tags ≡ ok r)
unfolding normalize_from
normalize_from_complete out [] h = (out, refl)
normalize_from_complete out (t ∷ tags) (good, h) =
    let (r, e) =
      normalize_from_complete (if member (to_lower t) out then out else out ++ to_lower t ∷ []) tags
        h in
    (r, rw good e)
