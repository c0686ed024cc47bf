-- ===== src/Body/Order.antt =====
-- `BlockBody::is_canonical` of crates/nightfall-ledger/src/aggregate.rs: a body is compared with its
-- sorted copy.
use nightfall.Common.{Bool, ◌&&◌}
use nightfall.Crypto.{Primitives}
use nightfall.Body.{BlockBody, canonicalise}
use nightfall.Body.Equality.{list_eq, input_eq, output_eq, kernel_eq}

-- The offsets are left alone by the sort.
unfoldable pub is_canonical : (c : Primitives) → BlockBody → Bool
is_canonical c body =
    let copy = canonicalise c body in
    list_eq input_eq copy.inputs body.inputs
    && (list_eq output_eq copy.outputs body.outputs && list_eq kernel_eq copy.kernels body.kernels)
