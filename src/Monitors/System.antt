-- ===== src/Monitors/System.antt =====
-- c/thread.c: `_yrt_atomic_monitor_enter` and `_yrt_atomic_monitor_exit`, both through
-- `_yrt_ensure_monitor`, one access to shared memory at a time, by any number of threads.
use yruntime.Base.{ℕ, ◌≡◌, ◌≢◌, Option, none, some, update}

-- A mutex at an address: not made, free, or locked by a thread.
pub data Mutex : Type 0 where
  absent free : Mutex
  locked : ℕ → Mutex

-- `fields` gives the second word of each object, its monitor or 0. `monitor_mutex` is the holder of
-- `__monitor_mutex__`.
pub record Shared : Type 0 where
  pub fields : ℕ → ℕ
  pub mutexes : ℕ → Mutex
  pub monitor_mutex : Option ℕ

-- The caller of `_yrt_ensure_monitor`.
pub data Caller : Type 0 where
  enter exit : Caller

-- Where a thread stands, with the object and `mut`.
pub data Pc : Type 0 where
  outside : Pc
  waiting : Caller → ℕ → Pc  -- before the lock of `__monitor_mutex__`
  reading : Caller → ℕ → Pc  -- before the read of the field
  storing : Caller → ℕ → ℕ → Pc  -- with a new mutex, before the write of the field
  leaving : Caller → ℕ → ℕ → Pc  -- before the unlock of `__monitor_mutex__`
  ensured : Caller → ℕ → ℕ → Pc  -- behind the return of `_yrt_ensure_monitor`

-- `held` tells for an object the mutex that the thread has locked for it, or 0.
pub record Local : Type 0 where
  pub pc : Pc
  pub held : ℕ → ℕ

-- A step of thread `i`. The compiler pairs the calls, so that a thread exits only what it has
-- entered. `GC_malloc` returns an address where there is no mutex.
pub data Move (i : ℕ) (s : Shared) (l : Local) : Shared → Local → Type 0 where
  call_enter : {o : ℕ} → l.pc ≡ outside → Move i s l s (record l { pc = waiting enter o })
  call_exit :
      {o : ℕ} → l.pc ≡ outside → l.held o ≢ 0 → Move i s l s (record l { pc = waiting exit o })
  lock_monitor_mutex :
      {c : Caller} {o : ℕ}
      → l.pc ≡ waiting c o
      → s.monitor_mutex ≡ none
      → Move i s l (record s { monitor_mutex = some i }) (record l { pc = reading c o })
  find :
      {c : Caller} {o : ℕ}
      → l.pc ≡ reading c o
      → s.fields o ≢ 0
      → Move i s l s (record l { pc = leaving c o (s.fields o) })
  create :
      {c : Caller} {o m : ℕ}
      → l.pc ≡ reading c o
      → s.fields o ≡ 0
      → m ≢ 0
      → s.mutexes m ≡ absent
      → Move i s l
          (record s { mutexes = update s.mutexes m free })
          (record l { pc = storing c o m })
  store_field :
      {c : Caller} {o m : ℕ}
      → l.pc ≡ storing c o m
      → Move i s l (record s { fields = update s.fields o m }) (record l { pc = leaving c o m })
  unlock_monitor_mutex :
      {c : Caller} {o m : ℕ}
      → l.pc ≡ leaving c o m
      → Move i s l (record s { monitor_mutex = none }) (record l { pc = ensured c o m })
  lock :
      {o m : ℕ}
      → l.pc ≡ ensured enter o m
      → s.mutexes m ≡ free
      → Move i s l
          (record s { mutexes = update s.mutexes m (locked i) })
          (record { pc = outside; held = update l.held o m })
  unlock :
      {o m : ℕ}
      → l.pc ≡ ensured exit o m
      → Move i s l
          (record s { mutexes = update s.mutexes m free })
          (record { pc = outside; held = update l.held o 0 })

pub record System : Type 0 where
  pub shared : Shared
  pub locals : ℕ → Local

pub data Step (s : System) : System → Type 0 where
  pick :
      (i : ℕ) {s' : Shared} {l' : Local}
      → Move i s.shared (s.locals i) s' l'
      → Step s (record { shared = s'; locals = update s.locals i l' })

-- No object has a monitor, and all threads are outside.
abbrev pub start_system : System
start_system = record {
  shared = record { fields = λ o. 0; mutexes = λ m. absent; monitor_mutex = none };
  locals = λ i. record { pc = outside; held = λ o. 0 };
}

pub data Reach : System → Type 0 where
  start : Reach start_system
  later : {s t : System} → Reach s → Step s t → Reach t
