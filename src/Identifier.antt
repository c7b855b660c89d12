-- ===== src/Identifier.antt =====
-- core/src/commons/identifier: digest and key identifiers, their text form and its parser.
-- `base64` is a third-party crate, so its two functions are parameters (`Base64`).
pub mod Derivators
pub mod Digests
pub mod Keys
pub mod RoundTrip
pub use Derivators.*
