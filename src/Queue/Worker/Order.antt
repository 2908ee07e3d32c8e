-- ===== src/Queue/Worker/Order.antt =====
-- The `ORDER BY` of `claim`: priority from high to low, then age, then identifier.
use aizk.Base.{◌≡◌, true, false, arith}
use aizk.Queue.Table.{QueueTask}
use aizk.Queue.Worker.{outranks}

pub outranks_total : (a b : QueueTask) → outranks a b ≡ false → outranks b a ≡ true
unfolding outranks
outranks_total a b h = ground arith

pub outranks_trans :
    (a b c : QueueTask) → outranks a b ≡ true → outranks b c ≡ true → outranks a c ≡ true
unfolding outranks
outranks_trans a b c h k = ground arith
