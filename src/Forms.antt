-- ===== src/Forms.antt =====
-- include/coroute/core/form.hpp and src/core/form.cpp: the fields of a form, and the bodies that carry
-- them.
mod Fields
mod Lookup
mod Url
mod UrlEncoded
mod Multipart
mod Disposition
mod Headers
mod Sections
mod Parts
mod Requests
mod Tests
