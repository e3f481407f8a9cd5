-- ===== src/Signup/Accounts/Invariant.antt =====
-- The accounts under any sequence of requests.
use project_tetris.Base.{ℕ, ◌<◌, ◌≡◌, List, [], ◌∷◌, arith, All}
use project_tetris.Signup.Table.{User, Table}
use project_tetris.Signup.Handlers.{Libraries, Server, Call, Request, handle, serve}
use project_tetris.Signup.Accounts.{IsTable, Differs, IsFree, Grows, stay, join, IsSession}
use project_tetris.Base.{All-map}
use project_tetris.Signup.Accounts.Steps.{handle-Keeps}

module _ (L : Libraries) where
  -- One more account that differs from the others.
  joined-Differs :
      (n : ℕ) (v : User) (vs : List User)
      → v.user_id ≡ n
      → All (λ w. w.user_id < n) vs
      → All (IsFree L.same v.login_id v.nickname v.email) vs
      → All (Differs L.same v) vs
  joined-Differs n v [] i below free = tt
  joined-Differs n v (w ∷ ws) i (b, below) ((l, k, e), free) = (
    record { older = omega (arith, i, b); other_login = l; other_nickname = k; other_email = e },
    joined-Differs n v ws i below free,
  )

  grown-IsTable :
      {t t' : Table}
      → Grows L.same t t'
      → IsTable L.same t.users t.next_id
      → IsTable L.same t'.users t'.next_id
  grown-IsTable stay h = h
  grown-IsTable (join {t} v i a free) h = record {
    distinct = (joined-Differs t.next_id v t.users i h.numbered free, h.distinct);
    numbered = (omega (arith, i), All-map _ t.users (λ w b. omega (arith, b)) h.numbered);
    accounts = (a, h.accounts);
  }

  -- What holds of the server between two requests.
  pub record IsServer (s : Server) : Type 0 where
    pub table_valid : IsTable L.same s.table.users s.table.next_id
    pub sessions_valid : (client : ℕ) → IsSession (s.sessions client)

  -- Every request, whatever it holds and whatever the clock, the random number, the mail server and
  -- bcrypt answer, and whether it is answered or raises, leaves the table as it is or puts one new
  -- account before the others: it has the next number, an id and an e-mail of the required forms, and
  -- a login id, a nickname and an e-mail that the database finds in no row. The sessions must hold
  -- well-formed e-mails, which they do afterwards too.
  pub handle_refines_Grows :
      (call : Call) (request : Request) (s : Server)
      → ((client : ℕ) → IsSession (s.sessions client))
      → Grows L.same s.table (handle L call request s).1.table
        × ((client : ℕ) → IsSession ((handle L call request s).1.sessions client))
  handle_refines_Grows call request s h =
      let kept = handle-Keeps L call request s h in (kept.grown, kept.valid_sessions)

  -- However many requests of however many clients are served, in any order: no two accounts share a
  -- login id, a nickname or an e-mail, their numbers fall from the newest to the oldest, and each has
  -- a login id and an e-mail of the required forms, if that held before.
  pub serve-IsServer :
      (requests : List (Call × Request)) (s : Server) → IsServer s → IsServer (serve L requests s)
  unfolding serve
  serve-IsServer [] s h = h
  serve-IsServer ((call, request) ∷ rest) s h =
      let kept = handle-Keeps L call request s h.sessions_valid in
      serve-IsServer rest (handle L call request s).1 (record {
        table_valid = grown-IsTable kept.grown h.table_valid;
        sessions_valid = kept.valid_sessions;
      })
