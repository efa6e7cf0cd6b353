-- ===== src/MimeBuild/Html.antt =====
-- src/mime_build.rs: `looks_like_html` and the slice that it takes.
use mathlib.Core.Option
use nexo_plugin_email.Base.{
  ℕ, zero, suc, ◌-◌, ◌≤◌, Str, Bool, true, none, some, List, [], ◌∷◌, ◌≡◌, inl, inr, refl, ap, ◌∙◌,
  arith, ltb, leb, if◌then◌else◌, Bool-cases, byte_len, slice_to, trim_start, is_whitespace,
  utf8_len, to_ascii_lowercase, into_bytes,
}
use nexo_plugin_email.Events.{OutboundCommand}
use nexo_plugin_email.MimeBuild.{
  looks_like_html, is_ascii, MimeLib, BuildContext, build_text_only, html_markers, text_message,
}

is_ascii-trim_start :
    (p : ℕ → Bool) (s : Str) → is_ascii s ≡ true → is_ascii (trim_start p s) ≡ true
unfolding is_ascii trim_start
is_ascii-trim_start p [] h = h
is_ascii-trim_start p (c ∷ s) h = elim (Bool-cases (p c)) [
  | inl e ↦ rw e (is_ascii-trim_start p s (ground arith))
  | inr e ↦ rw e h
]

slice_to-is_ascii :
    (n : ℕ) (s : Str) → is_ascii s ≡ true → n ≤ byte_len s → (r : Str) × (slice_to n s ≡ some r)
unfolding slice_to is_ascii byte_len
slice_to-is_ascii zero s h le = ([], refl)
slice_to-is_ascii (suc n) [] h le = ground arith
slice_to-is_ascii (suc n) (c ∷ s) h le =
    let one : utf8_len c ≡ 1 = ground arith in
    let (r, e) = slice_to-is_ascii n s (ground arith) (ground arith) in
    (c ∷ r, sliced (utf8_len c) (suc n - utf8_len c) r one (omega arith) e)
  where
    fits : (u : ℕ) → u ≡ 1 → leb u (suc n) ≡ true
    fits u one = ground arith

    sliced :
        (u m : ℕ) (r : Str)
        → u ≡ 1
        → m ≡ n
        → slice_to n s ≡ some r
        → (if leb u (suc n)
            then elim (slice_to m s) [ none ↦ none | some t ↦ some (c ∷ t) ]
            else none)
          ≡ some (c ∷ r)
    sliced u m r one same e =
        ap (λ o. if leb u (suc n) then (elim o [ none ↦ none | some t ↦ some (c ∷ t) ]) else none)
          (ap (λ k. slice_to k s) same ∙ e)
        ∙ ap (λ b. if b then some (c ∷ r) else none) (fits u one)

-- The test of an ASCII body does not panic.
pub looks_like_html-is_ascii :
    (body : Str) → is_ascii body ≡ true → (html : Bool) × (looks_like_html body ≡ some html)
unfolding looks_like_html
looks_like_html-is_ascii body h =
    let head = trim_start is_whitespace body in
    elim (Bool-cases (ltb 64 (byte_len head))) [
      | inl e ↦
          let (r, cut) =
            slice_to-is_ascii 64 head (is_ascii-trim_start is_whitespace body h) (ground arith) in
          (
            _,
            ap (Option.map (λ t. html_markers (to_ascii_lowercase t)))
                (ap (λ b. if b then slice_to 64 head else some head) e ∙ cut),
          )
      | inr e ↦ (
        _,
        ap (Option.map (λ t. html_markers (to_ascii_lowercase t)))
            (ap (λ b. if b then slice_to 64 head else some head) e),
      )
    ]

-- A text-only command with an ASCII body is always built.
build_text_only-is_ascii :
    (lib : MimeLib) (ctx : BuildContext) (cmd : OutboundCommand)
    → is_ascii cmd.body ≡ true
    → (bytes : List ℕ) × (build_text_only lib ctx cmd ≡ some bytes)
unfolding build_text_only
build_text_only-is_ascii lib ctx cmd h =
    let (html, e) = looks_like_html-is_ascii cmd.body h in
    (_, ap (Option.map (λ b. into_bytes (text_message lib b ctx cmd))) e)
