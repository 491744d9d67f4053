-- ===== src/Jwt.antt =====
-- common/soejwt: tokens of logins, made and read.
mod Tokens
mod Trust
mod Samples
