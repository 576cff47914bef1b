-- ===== src/State/Zookeeper/Versions.antt =====
-- The ETags of state/zookeeper/zk.go are the versions of the nodes.
use components_contrib.Base.{◌≡◌, sym, ap, ◌∙◌, ◌≢◌, none, some, arith, eq_iff}
use components_contrib.Base.Signed.{ℤ, pos, negsuc, to_int32, IsInt32}
use components_contrib.Base.Text.Decimal.{atoi, itoa, IsInt64, atoi-itoa}
use components_contrib.State.Zookeeper.{parse_etag}

itoa-ne-nil : (x : ℤ) → IsInt64 x → itoa x ≢ ""
unfolding atoi
itoa-ne-nil x h p = impossible (sym (ap atoi p) ∙ atoi-itoa x h)
  where
    impossible : none ≢ some x
    impossible q = cc

IsInt32-IsInt64 : (x : ℤ) → IsInt32 x → IsInt64 x
IsInt32-IsInt64 (pos n) h = omega arith
IsInt32-IsInt64 (negsuc n) h = omega arith

-- An ETag that prints a number of 64 bits stands for its low 32 bits, whether or not it fits them.
pub parse_etag-itoa : (x : ℤ) → IsInt64 x → parse_etag (itoa x) ≡ to_int32 x
unfolding parse_etag
parse_etag-itoa x h = ground (arith, eq_iff (itoa x) "", itoa-ne-nil x h, atoi-itoa x h)
