-- ===== src/Batch.antt =====
-- batch.go: the requests of a batch, and the goroutines that carry them out, in any order. What
-- DoWithContext gives for an entry is a parameter.
pub mod Places
pub mod Order
use bursthttp.Base.{
  length, set, replicate, Bytes, codes, ℕ, suc, Bool, true, false, Option, none, some, List, [],
  if◌then◌else◌, ◌≡◌, ◌∷◌, ◌++◌,
}
use bursthttp.Request.{Request, set_header}

pub record BatchEntry : Type 0 where
  pub req : Request
  pub owned : Bool

-- The loop over the headers. One that `SetHeader` refuses is left out.
unfoldable pub with_headers : List (Bytes × Bytes) → Request → Request
with_headers [] r = r
with_headers ((key, value) ∷ hs) r = with_headers hs (set_header r key value).0

abbrev pub owned_entry : Request → BatchEntry
owned_entry r = record { req = r; owned = true }

-- `Do`
abbrev pub batch_do : Request → List BatchEntry → List BatchEntry
batch_do r es = es ++ record { req = r; owned = false } ∷ []

-- The methods without a body, on a request that was acquired: `Get` and `Delete`, by a path.
unfoldable pub batch_path :
    Bytes → Request → Bytes → List (Bytes × Bytes) → List BatchEntry → List BatchEntry
batch_path verb r path hs es =
    es ++ owned_entry (with_headers hs (record r { method = verb; path = path })) ∷ []

-- `GetURL`
unfoldable pub batch_url :
    Request → Bytes → List (Bytes × Bytes) → List BatchEntry → List BatchEntry
batch_url r url hs es =
    es ++ owned_entry (with_headers hs (record r { method = codes "GET"; url = url })) ∷ []

-- `Post`, `Put` and `Patch`
unfoldable pub batch_body :
    Bytes → Request → Bytes → Bytes → List (Bytes × Bytes) → List BatchEntry → List BatchEntry
batch_body verb r path body hs es =
    es
    ++ owned_entry (with_headers hs (record r { method = verb; path = path; req_body = body })) ∷ []

-- `PostURL`
unfoldable pub batch_url_body :
    Request → Bytes → Bytes → List (Bytes × Bytes) → List BatchEntry → List BatchEntry
batch_url_body r url body hs es =
    es
    ++ owned_entry
        (with_headers hs (record r { method = codes "POST"; url = url; req_body = body }))
      ∷ []

-- A result, with the response and the error as what the request gave.
pub record BatchResult {ℓ} (A : Type ℓ) : Type ℓ where
  pub index : ℕ
  pub given : A

-- The goroutines that have not ended, the results, and the entries whose requests were released.
pub record BatchRun {ℓ} (A : Type ℓ) : Type ℓ where
  pub running : List (ℕ × BatchEntry)
  pub results : List (Option (BatchResult A))
  pub released : List ℕ

-- The loop that starts the goroutines.
unfoldable pub spawn : ℕ → List BatchEntry → List (ℕ × BatchEntry)
spawn i [] = []
spawn i (e ∷ es) = (i, e) ∷ spawn (suc i) es

module _ {ℓ} {A : Type ℓ} where
  unfoldable pub start_batch : List BatchEntry → BatchRun A
  start_batch es = record {
    running = spawn 0 es;
    results = replicate (length es) none;
    released = [];
  }

  -- The body of a goroutine, with the release that it defers.
  unfoldable pub finish_entry :
      (ℕ → BatchEntry → A) → ℕ → BatchEntry → List (ℕ × BatchEntry) → BatchRun A → BatchRun A
  finish_entry give i e others s = record {
    running = others;
    results = set s.results i (some (record { index = i; given = give i e }));
    released = if e.owned then s.released ++ i ∷ [] else s.released;
  }

  -- The states of a batch, by the goroutines that end in turn.
  pub data Batches (give : ℕ → BatchEntry → A) (es : List BatchEntry) : BatchRun A → Type ℓ where
    begins : Batches give es (start_batch es)
    ends :
        {s : BatchRun A} (before after : List (ℕ × BatchEntry)) (i : ℕ) (e : BatchEntry)
        → Batches give es s
        → s.running ≡ before ++ (i, e) ∷ after
        → Batches give es (finish_entry give i e (before ++ after) s)
