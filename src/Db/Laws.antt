-- ===== src/Db/Laws.antt =====
-- What every query has in common.
use ticketowl.Db.{Db, query}
use ticketowl.Base.{Action, ◌≡◌, true, false, err, suc, failed}

-- A query that fails leaves the tables as they were and is counted.
pub query_failed :
    {A : Type 0} (run : Action Db A) (db : Db)
    → db.down db.queries ≡ true
    → query run db ≡ (err failed, record db { queries = suc db.queries })
unfolding query
query_failed run db h = rw h

pub query_ran :
    {A : Type 0} (run : Action Db A) (db : Db)
    → db.down db.queries ≡ false
    → query run db ≡ run (record db { queries = suc db.queries })
unfolding query
query_ran run db h = rw h
