-- ===== src/Collector.antt =====
-- src/collector.rs: counting samples in bounded memory. A hash table of small buckets counts what is
-- frequent; what a full bucket evicts goes to an array that spills to a temporary file.
pub mod Bucket
pub mod Counter
pub mod TempArray
pub mod Combined
mod Tests
