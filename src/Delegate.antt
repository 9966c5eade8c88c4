-- ===== src/Delegate.antt =====
-- generator/internal/container_delegate.go: the executor's operations on one container, with their
-- errors turned into booleans. Logging is left out.
pub mod ResultFile
use rep.Base.{ℕ, ◌+◌, ◌*◌, String, Bool, true, false, List, [], Option, none, some}
use rep.Base.Tests.{if◌then◌else◌, ltb}
use rep.Base.Slices.{length}
use rep.Base.Result.{Result, ok, err}
use rep.Models.{Container, RunRequest}
use rep.Services.{
  ExecutorError, TarStream, Env, M, pure, ask, on_result, ◌>>=◌, ◌>>◌, get_container, run_container,
  stop_container, delete_container, get_files,
}

abbrev pub max_result_size : ℕ
max_result_size = 1024 * 10

pub data FetchError : Type 0 where
  executor_failed : ExecutorError → FetchError
  no_tar_entry result_file_too_large : FetchError

-- The part of FetchContainerResultFile that reads the stream.
unfoldable pub read_result : TarStream → Result FetchError (List ℕ)
read_result stream =
    if stream.next
    then (let buf = stream.read (max_result_size + 1) in
        if ltb max_result_size (length buf) then err result_file_too_large else ok buf)
    else err no_tar_entry

module _ {S : Type 0} (env : Env S) where
  unfoldable pub fetch_container : String → M S (Option Container)
  fetch_container guid = do
    reply ← ask env (get_container guid)
    on_result reply (λ container. pure (some container)) (λ _. pure none)

  unfoldable pub delete : String → M S Bool
  delete guid = do
    reply ← ask env (delete_container guid)
    on_result reply (λ _. pure true) (λ _. pure false)

  unfoldable pub stop : String → M S Bool
  stop guid = do
    reply ← ask env (stop_container guid)
    on_result reply (λ _. pure true) (λ _. pure false)

  unfoldable pub run : RunRequest → M S Bool
  unfolding delete
  run req = do
    reply ← ask env (run_container req)
    on_result reply (λ _. pure true) (λ _. do delete req.guid; pure false)

  unfoldable pub fetch_result_file : String → String → M S (Result FetchError (List ℕ))
  unfolding read_result
  fetch_result_file guid filename = do
    reply ← ask env (get_files guid filename)
    on_result reply (λ stream. pure (read_result stream)) (λ e. pure (err (executor_failed e)))
