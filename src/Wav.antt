-- ===== src/Wav.antt =====
-- voxcpm_runtime/wav_io.py: the conversion of samples to PCM16, the writing of a WAV file and its
-- validation. A byte is a number below 256.
pub mod Quantise
pub mod Bounds
pub mod Format
pub mod Disk
pub mod Write
pub mod Validate
pub mod Touches
pub mod Atomic
pub mod Reading
pub mod Writing
pub mod RoundTrip
pub mod Overflow
