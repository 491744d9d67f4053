-- ===== src/Ini.antt =====
-- common/ini: the settings of a system.ini file.
mod Settings
mod Loading
mod Samples
