-- ===== src/Delegate/ResultFile.antt =====
-- The limit on the size of a task's result file.
use rep.Base.{ℕ, ◌+◌, ◌≤◌, ◌≡◌, List, arith}
use rep.Base.Slices.{length}
use rep.Base.Result.{ok}
use rep.Services.{TarStream, Env, World}
use rep.Delegate.{max_result_size, read_result, fetch_result_file}
use rep.Base.{String}

-- A result is at most `max_result_size` bytes long, and it is what one read of the first entry gave.
pub read_result-bounded :
    (stream : TarStream) (result : List ℕ)
    → read_result stream ≡ ok result
    → (length result ≤ max_result_size) × (result ≡ stream.read (max_result_size + 1))
unfolding read_result
read_result-bounded stream result h = ground arith

-- Whatever the executor answers, a fetched result file has at most `max_result_size` bytes.
pub fetch_result_file-bounded :
    {S : Type 0} (env : Env S) (guid filename : String) (w : World S) (result : List ℕ)
    → (fetch_result_file env guid filename w).0 ≡ ok result
    → length result ≤ max_result_size
unfolding fetch_result_file
fetch_result_file-bounded env guid filename w result h = ground arith
