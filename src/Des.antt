-- ===== src/Des.antt =====
-- common/des: the Delphi-compatible DES of soedes.go and the PKCS#5 padding of des.go.
mod Tables
pub mod Block
pub mod Copying
mod Inverse
mod Feistel
pub mod Hex
pub mod Power
mod Loops
pub mod RoundTrip
pub mod Ecb
pub mod EcbLaws
mod Samples
