-- ===== src/Python.antt =====
-- What the program uses of Python's standard library, as executable functions: integers and bytes
-- (int.from_bytes, int.to_bytes), base64 and json. Hash functions and signatures are parameters of
-- the parts that use them.
pub mod Ints
pub mod Base64
pub mod Json
pub mod Values
