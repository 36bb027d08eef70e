-- ===== src/Engine/Memtable/SkipList/Order.antt =====
-- The order of the nodes is the order of MVCCKey.Compare.
use scoria_db.Base.{◌≡◌, ◌≢◌, ◌↔◌, true, false, arith, Ordering}
use scoria_db.Mvcc.{MvccKey, compare_mvcc}
use scoria_db.Mvcc.Versions.{compare_mvcc-IsTotalOrder}
use scoria_db.Keys.Order.{compare_keys-eq-lex, lex_refl}
use scoria_db.Engine.Memtable.SkipList.{node_key_less}

pub node_key_less_iff :
    (a b : MvccKey) → (node_key_less a b ≡ true) ↔ (compare_mvcc a b ≡ Ordering.lt)
unfolding node_key_less compare_mvcc
node_key_less_iff a b = ground arith

pub node_key_less_trans :
    (a b c : MvccKey)
    → node_key_less a b ≡ true
    → node_key_less b c ≡ true
    → node_key_less a c ≡ true
node_key_less_trans a b c p q = (node_key_less_iff a c).1 (
    compare_mvcc-IsTotalOrder.transitive a b c ((node_key_less_iff a b).0 p)
      ((node_key_less_iff b c).0 q))

pub node_key_less_irrefl : (a : MvccKey) → node_key_less a a ≡ false
unfolding node_key_less
node_key_less_irrefl a = ground (arith, compare_keys-eq-lex a.key a.key, lex_refl a.key)

-- Of two different keys one is in front of the other.
pub node_key_less_connex :
    (a b : MvccKey) → a ≢ b → node_key_less a b ≡ false → node_key_less b a ≡ true
node_key_less_connex a b ne h = ground (
  arith,
  h,
  ne,
  node_key_less_iff a b,
  node_key_less_iff b a,
  compare_mvcc-IsTotalOrder.equal a b,
  compare_mvcc-IsTotalOrder.antisymmetric a b,
)
