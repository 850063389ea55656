-- ===== src/Thrpool/System.antt =====
-- The thread that uses the queue and the threads of the pool, interleaved in any order. A step is
-- a section under a mutex, the run of a command, or a part of poke(). The calls of pthread succeed
-- here, as they do on mutexes and condition variables that are initialised and held properly.
use xnvme.Common.{ℕ, suc, ◌+◌, ◌≡◌, ◌≢◌, Bool, true, false, List, [], ◌∷◌, ◌++◌, length, value}
use xnvme.Cmd.{Ctx, Payload}
use xnvme.Queue.{Queue}
use xnvme.Queue.Pass.{SyncOps}
use xnvme.Thrpool.{
  Entry, Thrpool, turn, wait, stop, take_, set_qp, thrpool_cmd_io, thrpool_cmd_iov, collect,
  poke_max, recycle, settle, perform,
}

-- The threads are alike, so they are counted by where they stand: `ready` before the lock of the
-- submission queue, `waiting` for the condition variable, `stopped` behind the loop, with an entry
-- taken, or with one that has `ran` and is not on the completion queue. The user has a signal to
-- give, is in a poke() with the entries `polled` and `completed` of them, or in the callback of
-- `current`. The last three are the contexts submitted, started and called back, oldest first.
pub record System (W : Type 0) : Type 0 where
  pub q : Queue Thrpool W
  pub ready : ℕ
  pub waiting : ℕ
  pub stopped : ℕ
  pub taken : List Entry
  pub ran : List Entry
  pub signal : Bool
  pub polling : Bool
  pub polled : List Entry
  pub current : List Entry
  pub completed : ℕ
  pub submitted : List ℕ
  pub started : List ℕ
  pub called : List ℕ

abbrev pub ctxs_of : List Entry → List ℕ
ctxs_of [] = []
ctxs_of (e ∷ es) = e.ctx ∷ ctxs_of es

-- The queue when `n` threads have been started.
abbrev pub initial : {W : Type 0} → ℕ → Queue Thrpool W → System W
initial n q = record {
  q = q;
  ready = n;
  waiting = 0;
  stopped = 0;
  taken = [];
  ran = [];
  signal = false;
  polling = false;
  polled = [];
  current = [];
  completed = 0;
  submitted = [];
  started = [];
  called = [];
}

module _ {W : Type 0} (sync : SyncOps W) where
  -- A step of one thread of the pool.
  pub data Work (s : System W) : System W → Type 0 where
    sleep :
        {r : ℕ}
        → s.ready ≡ suc r
        → turn s.q.be ≡ wait
        → Work s (record s { ready = r; waiting = suc s.waiting })
    leave :
        {r : ℕ}
        → s.ready ≡ suc r
        → turn s.q.be ≡ stop
        → Work s (record s { ready = r; stopped = suc s.stopped })
    start :
        {r : ℕ} {e : Entry} {sq : List Entry}
        → s.ready ≡ suc r
        → turn s.q.be ≡ take_ e sq
        → Work s (record s {
          q = set_qp (record s.q.be.qp { sq = sq }) s.q;
          ready = r;
          taken = s.taken ++ e ∷ [];
          started = s.started ++ e.ctx ∷ [];
        })
    run :
        (es : List Entry) (e : Entry) (es' : List Entry)
        → s.taken ≡ es ++ e ∷ es'
        → Work s (record s { q = perform sync e s.q; taken = es ++ es'; ran = s.ran ++ e ∷ [] })
    finish :
        (es : List Entry) (e : Entry) (es' : List Entry)
        → s.ran ≡ es ++ e ∷ es'
        → Work s (record s {
          q = set_qp (record s.q.be.qp { cq = s.q.be.qp.cq ++ e ∷ [] }) s.q;
          ready = suc s.ready;
          ran = es ++ es';
        })

  -- A step of the user, who writes its own memory at any time, and a wait that ends unsignalled.
  pub data Use (s : System W) : System W → Type 0 where
    spurious : {w : ℕ} → s.waiting ≡ suc w → Use s (record s { ready = suc s.ready; waiting = w })
    write :
        (cs : ℕ → Ctx) (w : W) (pool : List ℕ)
        → Use s (record s { q = record s.q { ctxs = cs; world = w; pool = pool } })
    submit :
        (p : ℕ) (pl : Payload) {q' : Queue Thrpool W}
        → s.signal ≡ false
        → s.q.outstanding ≢ s.q.capacity
        → thrpool_cmd_io 0 0 p pl s.q ≡ (value 0, q')
        → Use s (record s { q = q'; signal = true; submitted = s.submitted ++ p ∷ [] })
    submit_iov :
        (p : ℕ) (pl : Payload) {q' : Queue Thrpool W}
        → s.signal ≡ false
        → s.q.outstanding ≢ s.q.capacity
        → thrpool_cmd_iov 0 0 p pl s.q ≡ (value 0, q')
        → Use s (record s { q = q'; signal = true; submitted = s.submitted ++ p ∷ [] })
    signal_one :
        {w : ℕ}
        → s.signal ≡ true
        → s.waiting ≡ suc w
        → Use s (record s { signal = false; ready = suc s.ready; waiting = w })
    signal_none : s.signal ≡ true → s.waiting ≡ 0 → Use s (record s { signal = false })
    poke :
        (max : ℕ)
        → s.signal ≡ false
        → s.polling ≡ false
        → Use s (record s {
          q = (collect (poke_max max s.q.outstanding) s.q).1;
          polling = true;
          polled = (collect (poke_max max s.q.outstanding) s.q).0;
          completed = length (collect (poke_max max s.q.outstanding) s.q).0;
        })
    call :
        {e : Entry} {es : List Entry}
        → s.signal ≡ false
        → s.current ≡ []
        → s.polled ≡ e ∷ es
        → Use s (record s { polled = es; current = e ∷ []; called = s.called ++ e.ctx ∷ [] })
    return :
        {e : Entry}
        → s.signal ≡ false
        → s.current ≡ e ∷ []
        → Use s (record s { q = recycle e s.q; current = [] })
    poke_end :
        s.signal ≡ false
        → s.polling ≡ true
        → s.current ≡ []
        → s.polled ≡ []
        → Use s (record s { q = settle s.completed s.q; polling = false; completed = 0 })
    term :
        s.signal ≡ false
        → Use s (record s {
          q = record s.q { be = record s.q.be { threads_stop = true } };
          ready = s.ready + s.waiting;
          waiting = 0;
        })

  -- What is reached from `n` threads on the queue `q0`, that no command has been submitted to.
  pub data Reach (n : ℕ) (q0 : Queue Thrpool W) : System W → Type 0 where
    begin : Reach n q0 (initial n q0)
    works : {s t : System W} → Reach n q0 s → Work s t → Reach n q0 t
    uses : {s t : System W} → Reach n q0 s → Use s t → Reach n q0 t
