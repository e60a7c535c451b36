-- ===== src/Session/Laws.antt =====
-- Transactions and sessions, for every body.
use multi_tenant_saas.Base.{◌≡◌, arith}
use multi_tenant_saas.Session.{Error, ok, err, World, Action, transaction}

-- A transaction that raises leaves the committed database as it was before the body raised, and
-- the session sees it again.
pub transaction_rolls_back :
    {A : Type 0} (m : Action A) (w : World) (e : Error)
    → (transaction m w).0 ≡ err e
    → ((transaction m w).1.committed ≡ (m w).1.committed)
      × ((transaction m w).1.working ≡ (m w).1.committed)
unfolding transaction
transaction_rolls_back m w e h = ground arith

-- A transaction that returns has published what its body left in the session.
pub transaction_commits :
    {A : Type 0} (m : Action A) (w : World) (a : A)
    → (transaction m w).0 ≡ ok a
    → ((transaction m w).1.committed ≡ (m w).1.working)
      × ((transaction m w).1.working ≡ (m w).1.working)
unfolding transaction
transaction_commits m w a h = ground arith
