-- ===== src/Auth/Steps.antt =====
-- internal/telegram/auth/flow.go: the goroutines of the attempts and the requests, interleaved. A step
-- is one critical section.
use telecollection.Prelude.{
  ℕ, suc, ◌<◌, ◌^◌, ◌≡◌, ◌==◌, Bytes, Option, none, some, if◌then◌else◌, ok, Error,
}
use telecollection.Auth.{
  Flow, wait_code, wait_password, new_service, start_login, start_qr, logout, finish_attempt,
  transition, abandon,
}

-- The goroutine of StartLogin, or of StartQR.
pub data Kind : Type 0 where
  by_code by_qr : Kind

-- A goroutine that was launched and has not ended, or one that StartQR has yet to launch: it waits for
-- the goroutine of the attempt that it preempted, if there is one.
pub data Worker : Type 0 where
  goroutine : Kind → Worker
  queued : Kind → Worker

-- The goroutines, by their generations.
pub record World : Type 0 where
  pub flow : Flow
  pub workers : ℕ → Option Worker

abbrev pub set_worker : ℕ → Option Worker → (ℕ → Option Worker) → ℕ → Option Worker
set_worker g k ws x = if x == g then k else ws x

abbrev pub initial : World
initial = record { flow = new_service; workers = λ g. none }

-- What goroutines and requests under way do; each stands for an attempt that was started. A goroutine
-- calls Code or Password only while it runs, and only that of StartLogin has an authenticator. A StartQR
-- that waits launches its goroutine, or leaves when its context ends. Fewer than 2^64 attempts are made.
pub data Late : World → World → Type 0 where
  asks_code :
      (w : World) (g : ℕ)
      → w.workers g ≡ some (goroutine by_code)
      → Late w (record w { flow = transition g wait_code w.flow })
  asks_password :
      (w : World) (g : ℕ)
      → w.workers g ≡ some (goroutine by_code)
      → Late w (record w { flow = transition g wait_password w.flow })
  ends :
      (w : World) (g : ℕ) (k : Kind) (e : Option Error)
      → w.workers g ≡ some (goroutine k)
      → Late w (record { flow = finish_attempt g e w.flow; workers = set_worker g none w.workers })
  launches :
      (w : World) (g : ℕ) (k : Kind)
      → w.workers g ≡ some (queued k)
      → Late w (record w { workers = set_worker g (some (goroutine k)) w.workers })
  leaves_queue :
      (w : World) (g : ℕ) (k : Kind)
      → suc w.flow.gen < 2 ^ 64
      → w.workers g ≡ some (queued k)
      → Late w (record { flow = abandon g w.flow; workers = set_worker g none w.workers })
  abandons :
      (w : World) (g : ℕ) → suc w.flow.gen < 2 ^ 64 → Late w (record w { flow = abandon g w.flow })

pub data Step : World → World → Type 0 where
  goes_on : (w w' : World) → Late w w' → Step w w'
  starts_login :
      (w : World) (phone : Bytes) (g : ℕ) (f : Flow)
      → suc w.flow.gen < 2 ^ 64
      → start_login phone w.flow ≡ (ok g, f)
      → Step w (record { flow = f; workers = set_worker g (some (goroutine by_code)) w.workers })
  starts_qr :
      (w : World)
      → suc w.flow.gen < 2 ^ 64
      → Step w (record {
        flow = (start_qr w.flow).1;
        workers = set_worker (start_qr w.flow).0.0 (some (queued by_qr)) w.workers;
      })
  logs_out : (w : World) → suc w.flow.gen < 2 ^ 64 → Step w (record w { flow = logout w.flow })

pub data Reachable : World → Type 0 where
  at_start : Reachable initial
  step : (w w' : World) → Reachable w → Step w w' → Reachable w'

-- Steps in which nobody starts an attempt or logs out.
pub data Lates : World → World → Type 0 where
  now : (w : World) → Lates w w
  later : (w w' w'' : World) → Lates w w' → Late w' w'' → Lates w w''
