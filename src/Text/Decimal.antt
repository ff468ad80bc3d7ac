-- ===== src/Text/Decimal.antt =====
-- strconv.Atoi and the decimal form of a number.
mod Defs
mod Laws
unfoldable pub use Defs.{decimal, digits_onto, atoi, digits_value}
pub use Laws.{atoi-decimal, All-decimal}
