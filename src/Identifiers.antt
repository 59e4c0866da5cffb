-- ===== src/Identifiers.antt =====
-- heat/common/identifier.py: identifiers of stacks, resources and events. `Quoting` is what it uses of
-- urllib.
mod Quoting
mod Identifier
mod Lacking
mod RoundTrip
mod Nested
mod Owners
mod Samples
