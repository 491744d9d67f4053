-- ===== src/Utils.antt =====
-- common/utils: the order of a signature's parameters, times of business, cuts of texts, helpers
-- for numbers and lists, and a bitmap of words.
mod Sign
mod SignLaws
mod Hours
mod HoursLaws
mod Numbers
mod Bases
mod Lists
mod Pages
mod Cut
mod CutLaws
mod WordBits
mod WordBitmap
mod WordLaws
mod Samples
