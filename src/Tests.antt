-- ===== src/Tests.antt =====
-- Runs of the model on small inputs, and the theorems at inputs where their hypotheses hold.
mod Errors
pub mod Retry
pub mod RateLimit
pub mod Router
mod Throughput
mod Refinement
mod Pricing
pub mod Server
pub mod Adapters
pub mod Openai
pub mod Bedrock
pub mod SigV4
pub mod Gateway
mod Process
mod Order
mod Durations
mod EndToEnd
