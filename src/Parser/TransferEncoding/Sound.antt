-- ===== src/Parser/TransferEncoding/Sound.antt =====
-- When `parseTransferEncoding` answers that the body is chunked.
use bursthttp.Base.{
  Bool-cases, drop, drop-append_of_length, Bytes, fold_byte, ℕ, zero, suc, refl, ap, inl, inr, true,
  [], arith, match_fold, skip_blanks, ◌==◌, ◌≡◌, ◌∙◌, ◌&&◌, ◌||◌, ◌∷◌, ◌++◌,
}
use bursthttp.Parser.Fields.{Spells, match_fold-NameAt, Spells-length, match_fold-Spells, Misses}
use bursthttp.Parser.TransferEncoding.{
  transfer_encoding_name, transfer_from, contains_chunked, to_line_end, parse_transfer_encoding,
}

-- A field of the name, whose line, past the blanks, holds "chunked" in any case.
pub record ChunkedField (buf : Bytes) : Type 0 where
  pub pre : Bytes
  pub name : Bytes
  pub after : Bytes
  pub splits : buf ≡ pre ++ (name ++ after)
  pub spelled : Spells transfer_encoding_name name
  pub chunked : contains_chunked (to_line_end (skip_blanks after)) ≡ true

ChunkedField-cons : (c : ℕ) {buf : Bytes} → ChunkedField buf → ChunkedField (c ∷ buf)
ChunkedField-cons c f = record {
  pre = c ∷ f.pre;
  name = f.name;
  after = f.after;
  splits = ap (◌∷◌ c) f.splits;
  spelled = f.spelled;
  chunked = f.chunked;
}

ChunkedField-here :
    (buf : Bytes)
    → match_fold transfer_encoding_name buf ≡ true
    → contains_chunked (to_line_end (skip_blanks (drop 18 buf))) ≡ true
    → ChunkedField buf
ChunkedField-here buf m c =
    let at = match_fold-NameAt transfer_encoding_name buf m in
    let len = Spells-length transfer_encoding_name at.name at.spelled in
    record {
      pre = [];
      name = at.name;
      after = at.after;
      splits = at.splits;
      spelled = at.spelled;
      chunked = rw (at.splits, drop-append_of_length at.name at.after 18 len) at c;
    }

transfer_from-ChunkedField : (buf : Bytes) (k : ℕ) → transfer_from k buf ≡ true → ChunkedField buf
unfolding transfer_from
transfer_from-ChunkedField [] k h = cc
transfer_from-ChunkedField (b ∷ rest) (suc k) h =
    ChunkedField-cons b (transfer_from-ChunkedField rest k h)
transfer_from-ChunkedField (b ∷ rest) zero h =
    elim (Bool-cases ((b == b't' || b == b'T') && match_fold transfer_encoding_name (b ∷ rest))) [
      | inr other ↦ ChunkedField-cons b (transfer_from-ChunkedField rest 0 (rw other at h))
      | inl match ↦
          elim (Bool-cases (contains_chunked (to_line_end (skip_blanks (drop 18 (b ∷ rest)))))) [
            | inl c ↦ ChunkedField-here (b ∷ rest) (ground arith) c
            | inr c ↦ ChunkedField-cons b (transfer_from-ChunkedField rest _ (rw (match, c) at h))
          ]
    ]

-- If parseTransferEncoding says that the body is chunked, the buffer has a "transfer-encoding:"
-- in some case whose line, past the blanks, holds "chunked" in some case.
pub parse_transfer_encoding-ChunkedField :
    (buf : Bytes) → parse_transfer_encoding buf ≡ true → ChunkedField buf
unfolding parse_transfer_encoding
parse_transfer_encoding-ChunkedField buf = transfer_from-ChunkedField buf 0

transfer_from-Misses :
    (pre rest : Bytes)
    → Misses transfer_encoding_name pre rest
    → transfer_from 0 (pre ++ rest) ≡ transfer_from 0 rest
unfolding transfer_from
transfer_from-Misses [] rest h = refl
transfer_from-Misses (c ∷ pre) rest (h, hs) = ground (arith, h, transfer_from-Misses pre rest hs)

starts_t : (c : ℕ) → fold_byte c ≡ b't' → (c == b't' || c == b'T') ≡ true
starts_t c h = ground arith

transfer_from_at :
    (name after : Bytes)
    → Spells transfer_encoding_name name
    → contains_chunked (to_line_end (skip_blanks after)) ≡ true
    → transfer_from 0 (name ++ after) ≡ true
unfolding transfer_from
transfer_from_at [] after h c = elim h [ ]
transfer_from_at (n ∷ name) after h c = rw (
  match_fold-Spells transfer_encoding_name (n ∷ name) after h,
  starts_t n h.0,
  drop-append_of_length (n ∷ name) after 18 (Spells-length transfer_encoding_name (n ∷ name) h),
  c,
)

-- Where the first "transfer-encoding:" of the buffer, in any case, is followed on its line by
-- "chunked", in any case, parseTransferEncoding says that the body is chunked.
pub parse_transfer_encoding_field :
    (pre name after : Bytes)
    → Misses transfer_encoding_name pre (name ++ after)
    → Spells transfer_encoding_name name
    → contains_chunked (to_line_end (skip_blanks after)) ≡ true
    → parse_transfer_encoding (pre ++ (name ++ after)) ≡ true
unfolding parse_transfer_encoding
parse_transfer_encoding_field pre name after m s c =
    transfer_from-Misses pre (name ++ after) m ∙ transfer_from_at name after s c
