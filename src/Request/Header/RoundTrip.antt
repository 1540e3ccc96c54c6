-- ===== src/Request/Header/RoundTrip.antt =====
-- What `SetHeader` stores is what a parser of the same shape reads back.
use bursthttp.Base.{
  Option-cases, length, length-append, Bytes, cr, lf, All, refl, sym, ap, inl, inr, false, List, [],
  append_assoc, append-nil, arith, ◌+◌, ◌≤◌, ◌≡◌, ◌∙◌, ◌∷◌, ◌++◌,
}
use bursthttp.Request.{
  Request, contains_crlf, max_header_size, header_line, header_room, set_header,
}
use bursthttp.Request.Header.{header_room_refuses, length-block}
use bursthttp.Response.Lookup.{Header}
use bursthttp.Parser.Chunked.Lines.{NoLf}
use bursthttp.Parser.Headers.{parse_headers}
use bursthttp.Parser.Headers.Render.{NoCr, IsField, render, parse_headers-render, field_line}

-- `SetHeader` for each field in turn.
unfoldable pub set_headers : Request → List Header → Request
set_headers r [] = r
set_headers r (h ∷ hs) = set_headers (set_header r h.key h.value).0 hs

pub record IsClean (h : Header) : Type 0 where
  pub field : IsField h
  pub key_no_lf : NoLf h.key
  pub value_no_lf : NoLf h.value

contains_crlf-clean : (s : Bytes) → NoCr s → NoLf s → contains_crlf s ≡ false
unfolding contains_crlf
contains_crlf-clean [] h k = refl
contains_crlf-clean (c ∷ s) h k = ground (arith, h.0, k.0, contains_crlf-clean s h.1 k.1)

field_line-header_line :
    (h : Header) (rest : Bytes) → field_line h ++ cr ∷ lf ∷ rest ≡ header_line h.key h.value ++ rest
field_line-header_line h rest = simp (append_assoc)

set_header_stores :
    (r : Request) (h : Header)
    → IsClean h
    → length (r.header_block ++ header_line h.key h.value) ≤ max_header_size
    → (set_header r h.key h.value).0.header_block ≡ r.header_block ++ header_line h.key h.value
unfolding set_header
set_header_stores r h c l =
    let room = length-block r.header_block h.key h.value in
    let required = length r.header_block + (length h.key + 2 + length h.value + 2) in
    let p = contains_crlf-clean h.key c.field.key_no_cr c.key_no_lf in
    let q = contains_crlf-clean h.value c.field.value_no_cr c.value_no_lf in
    elim (Option-cases (header_room r required)) [
      | inl e ↦ absurd (omega (arith, room, header_room_refuses r required e))
      | inr (n, e) ↦ rw (p, q, e) refl
    ]

set_headers-render :
    (r : Request) (hs : List Header)
    → All IsClean hs
    → length (r.header_block ++ render hs []) ≤ max_header_size
    → (set_headers r hs).header_block ≡ r.header_block ++ render hs []
unfolding set_headers
set_headers-render r [] c l = sym (append-nil r.header_block)
set_headers-render r (h ∷ hs) (c, cs) l =
    let block = r.header_block in
    let line = header_line h.key h.value in
    let whole : (block ++ line) ++ render hs [] ≡ block ++ render (h ∷ hs) [] =
      append_assoc block line (render hs [])
      ∙ ap (λ t. block ++ t) (sym (field_line-header_line h (render hs []))) in
    let stored =
      set_header_stores r h c
        (omega (arith, length-append (block ++ line) (render hs []), ap length whole, l)) in
    let next : (set_header r h.key h.value).0.header_block ++ render hs []
        ≡ block ++ render (h ∷ hs) [] =
      ap (λ t. t ++ render hs []) stored ∙ whole in
    set_headers-render (set_header r h.key h.value).0 hs cs (omega (arith, ap length next, l))
    ∙ next

render-append : (hs : List Header) (rest : Bytes) → render hs rest ≡ render hs [] ++ rest
render-append [] rest = refl
render-append (h ∷ hs) rest = simp (append_assoc, render-append hs rest)

fields_of_clean : (hs : List Header) → All IsClean hs → All IsField hs
fields_of_clean [] c = tt
fields_of_clean (h ∷ hs) (c, cs) = (c.field, fields_of_clean hs cs)

-- Fields added by SetHeader to an empty block, each clean (trimmed, not empty, without line
-- ends, the name without a colon) and together within the 1 MiB limit, form a block from which
-- the header parser reads exactly these fields, behind any first line without CR and in front of
-- any body.
pub set_headers-parse_headers :
    (r : Request) (hs : List Header) (line rest : Bytes)
    → NoCr line
    → All IsClean hs
    → r.header_block ≡ []
    → length (render hs []) ≤ max_header_size
    → parse_headers (line ++ cr ∷ lf ∷ ((set_headers r hs).header_block ++ cr ∷ lf ∷ rest)) [] ≡ hs
set_headers-parse_headers r hs line rest n c e l =
    let stored = set_headers-render r hs c (rw e l) in
    let block : (set_headers r hs).header_block ++ cr ∷ lf ∷ rest ≡ render hs (cr ∷ lf ∷ rest) =
      ap (λ t. t ++ cr ∷ lf ∷ rest) (stored ∙ ap (λ t. t ++ render hs []) e)
      ∙ sym (render-append hs (cr ∷ lf ∷ rest)) in
    ap (λ t. parse_headers (line ++ cr ∷ lf ∷ t) []) block
    ∙ parse_headers-render line hs [] rest n (fields_of_clean hs c)
