-- ===== src/Bits.antt =====
-- Laws of `&`, `|` and `^` at variables: the lowest digit (`Digit`), masks of low and of high bits,
-- fields that do not overlap, the union with a mask (`Union`), and powers of two.
mod Digit
mod Masks
mod At
mod Union
pub use Digit.*
pub use Masks.*
pub use At.*
pub use Union.*
