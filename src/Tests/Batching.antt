-- ===== src/Tests/Batching.antt =====
-- A batch of two requests, the second of which ends first.
use bursthttp.Base.{
  get_elem?, codes, ℕ, zero, suc, refl, true, false, some, List, [], ◌+◌, ◌≡◌, ◌∷◌,
}
use bursthttp.Scheduler.Answers.{count, one_if}
use bursthttp.Batch.{
  BatchEntry, spawn, with_headers, BatchRun, batch_do, batch_path, start_batch, finish_entry,
  Batches,
}
use bursthttp.Batch.Order.{in_order, Batches-in_order}
use bursthttp.Tests.Sending.{small_request}

abbrev entries : List BatchEntry
entries = batch_do small_request (batch_path (codes "GET") small_request (codes "/a") [] [])

abbrev give : ℕ → BatchEntry → ℕ
give i e = 200 + i

abbrev get_entry : ℕ → BatchEntry
get_entry zero = record {
  req = record small_request { method = codes "GET"; path = codes "/a" };
  owned = true;
}
get_entry (suc i) = record { req = small_request; owned = false }

abbrev last_state : BatchRun ℕ
last_state =
    finish_entry give 0 (get_entry 0) []
      (finish_entry give 1 (get_entry 1) ((0, get_entry 0) ∷ []) (start_batch entries))

last_state-Batches : Batches give entries last_state
unfolding start_batch finish_entry spawn batch_path with_headers
last_state-Batches =
    Batches.ends [] [] 0 (get_entry 0)
      (Batches.ends ((0, get_entry 0) ∷ []) [] 1 (get_entry 1) Batches.begins refl) refl

Batches-in_order_example :
    (last_state.results ≡ in_order give 0 entries)
    × ((i : ℕ) (e : BatchEntry)
        → get_elem? entries i ≡ some e
        → count i last_state.released ≡ one_if e.owned)
unfolding finish_entry
Batches-in_order_example = Batches-in_order give entries last_state last_state-Batches refl
