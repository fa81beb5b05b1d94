-- ===== src/Scan/Batch.antt =====
-- `ChunkSource::buffer_next_batch_chunks_blocking` of be/source/chunk_source.{h,cpp}, over any
-- `_read_chunk`. Chunks are not kept.
use sr_scanner_demo.Base.{ℕ, zero, suc, Bool, true, ◌≡◌, no_return, if◌then◌else◌}
use sr_scanner_demo.Base.Actions.{Action, give, fails, ◌>>=◌, Never, Never-fails, Never-after}
use sr_scanner_demo.Status.{Status, is_ok}

-- `has_next_chunk`, of the status of the chunk source
unfoldable pub has_next_chunk : Status → Bool
has_next_chunk status = is_ok status

module _ {S W : Type 0} (read_chunk : S → Action W (Status × S)) where
  -- The `for` loop, with the rounds that are left.
  unfoldable pub read_batch : ℕ → Status → S → Action W (Status × S)
  read_batch zero status s = give (status, s)
  read_batch (suc n) status s = do
    (status', s') ← read_chunk s
    if is_ok status' then read_batch n status' s' else give (status', s')

  -- `buffer_next_batch_chunks_blocking`, with what it returns, and with `_status` and the source after
  -- it. Behind the loop the function ends without a return.
  unfoldable pub buffer_next_batch_chunks_blocking :
      ℕ → Status → S → Action W (Status × (Status × S))
  unfolding read_batch
  buffer_next_batch_chunks_blocking batch_size status s =
      if is_ok status
      then (do (status', s') ← read_batch batch_size status s; fails no_return)
      else give (status, (status, s))

  -- A chunk source with a next chunk never returns from its next batch.
  pub buffer_next-Never :
      (n : ℕ) (status : Status) (s : S)
      → has_next_chunk status ≡ true
      → Never (buffer_next_batch_chunks_blocking n status s)
  unfolding buffer_next_batch_chunks_blocking has_next_chunk
  buffer_next-Never n status s good = rw good (Never-after _ _ λ r. Never-fails no_return)
